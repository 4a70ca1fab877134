-- ===== src/Daemon/Start/Begun.antt =====
-- What runs after a start that succeeds.
use slurm_tracer.Common.{
  ℕ, ◌≡◌, ◌≢◌, refl, sym, ap, subst, ◌∙◌, inl, inr, [], Option, none, some, false, arith,
  Bool-cases,
}
use slurm_tracer.Text.{Bytes}
use slurm_tracer.Dict.{text_key, lookup}
use slurm_tracer.Dict.Retain.{IsSorted}
use slurm_tracer.Attribution.Resolver.{CgroupResolver}
use slurm_tracer.Pipeline.{Pipeline, new_pipeline}
use slurm_tracer.EventLoop.{add}
use slurm_tracer.BpfProbe.{new_probe}
use slurm_tracer.Daemon.{Daemon, Machine, wire_sinks}
use slurm_tracer.Daemon.Start.{
  Startup, Started, bring_up, start_cgroup_watcher, add_sinks, add_probes, options, has_none,
}
use slurm_tracer.Daemon.Running.{
  Running, IsUnique, sinks_running, probes_running, otherwise, IsSorted-IsUnique,
}
use slurm_tracer.Daemon.Running.Sinks.{IsWired, loaded_sink}
use slurm_tracer.Daemon.Running.Probes.{ProbesOnly}
use slurm_tracer.Daemon.Running.Added.{loaded_probe}
use slurm_tracer.Daemon.Reload.Chosen.{Components}
use slurm_tracer.Daemon.Reload.Reached.{picked, sink_of-picked, Fresh-intro}
use slurm_tracer.Daemon.Reload.Sinks.{SinkSteps, Fresh, sink_of, add_sinks_lem}
use slurm_tracer.Daemon.Reload.Probes.{ProbeSteps, probe_of}
use slurm_tracer.Daemon.Reload.Running.{add_probes_lem}
use slurm_tracer.Daemon.Reload.Applied.{IsSettled}

-- Starting the watcher leaves all but the watcher and the loop.
pub watcher_only :
    (s : Startup) (d : Daemon)
    → ProbesOnly d (start_cgroup_watcher s d).daemon
      × ((start_cgroup_watcher s d).daemon.probes ≡ d.probes)
unfolding start_cgroup_watcher
watcher_only s d = elim (Bool-cases (bring_up s.ops new_probe).ok) [
  | inr e ↦
      rw (e, start_cgroup_watcher)
        (
          record {
            config = refl;
            config_path = refl;
            sinks = refl;
            pipeline = refl;
            plugin_dir = refl;
          },
          refl,
        )
  | inl e ↦ elim (Bool-cases (add s.bpf d.loop s.watcher s.pipeline).0) [
    | inr f ↦
        rw (e, f, start_cgroup_watcher)
          (
            record {
              config = refl;
              config_path = refl;
              sinks = refl;
              pipeline = refl;
              plugin_dir = refl;
            },
            refl,
          )
    | inl f ↦
        rw (e, f, start_cgroup_watcher)
          (
            record {
              config = refl;
              config_path = refl;
              sinks = refl;
              pipeline = refl;
              plugin_dir = refl;
            },
            refl,
          )
  ]
]

abbrev pub started_sink : Startup → Daemon → Bytes → Option ℕ
started_sink s d x = picked (λ y. loaded_sink (s.at_sink y) d y) x (lookup x d.config.sinks)

abbrev pub started_probe : Startup → Daemon → Bytes → Option ℕ
started_probe s d x = picked (λ y. loaded_probe (s.at_probe y) d y) x (lookup x d.config.probes)

-- A daemon that runs what its configuration says, and something of it.
pub record Begun (s : Startup) (d e : Daemon) : Type 0 where
  pub settled : IsSettled e
  pub wired : IsWired e
  pub pipes : e.pipeline ≢ none
  pub some_sink : has_none e.sinks ≡ false
  pub some_probe : has_none e.probes ≡ false
  pub config : e.config ≡ d.config
  pub config_path : e.config_path ≡ d.config_path
  pub sinks : (x : Bytes) → lookup x (sinks_running e.sinks) ≡ started_sink s d x
  pub probes :
      (x : Bytes) (a : ℕ)
      → lookup x (probes_running e.probes) ≡ some a
      → started_probe s d x ≡ some a

pub started_sink-eq-none :
    (s : Startup) (d : Daemon) (x : Bytes)
    → lookup x d.config.sinks ≡ none
    → started_sink s d x ≡ none
started_sink-eq-none s d x h = ap (picked (λ y. loaded_sink (s.at_sink y) d y) x) h

pub started_probe-eq-none :
    (s : Startup) (d : Daemon) (x : Bytes)
    → lookup x d.config.probes ≡ none
    → started_probe s d x ≡ none
started_probe-eq-none s d x h = ap (picked (λ y. loaded_probe (s.at_probe y) d y) x) h

-- The daemon as it is when the probes are added.
abbrev pub sinks_added : Startup → Daemon → Daemon
sinks_added s d = (add_sinks s.at_sink d.config.sinks d).0

abbrev pub piped : Startup → Daemon → CgroupResolver → Daemon
piped s d resolver =
    let e = sinks_added s d in
    record e { pipeline = some (new_pipeline (options d.config) [] resolver s.now) }

abbrev pub watched : Startup → Daemon → CgroupResolver → Started
watched s d resolver = start_cgroup_watcher s (wire_sinks (piped s d resolver))

pub wired_pipes : (d : Daemon) (p : Pipeline) → d.pipeline ≡ some p → (wire_sinks d).pipeline ≢ none
unfolding wire_sinks
wired_pipes d p h k = absurd (ground (arith, rw (h, wire_sinks) at k))

-- From a daemon on which nothing runs.
pub record Idle (d : Daemon) : Type 0 where
  pub no_sinks : d.sinks ≡ []
  pub no_probes : d.probes ≡ []
  pub sorted_sinks : IsSorted d.config.sinks
  pub sorted_probes : IsSorted d.config.probes

nothing : (m : Running) (x : Bytes) → m ≡ [] → lookup x m ≡ none
unfolding lookup
nothing m x h = ap (lookup x) h

nothing_twice : (m : Running) → m ≡ [] → IsUnique m
nothing_twice m h = subst IsUnique (sym h) tt

nothing_first : (m : Running) (x : Bytes) (o : Option ℕ) → m ≡ [] → otherwise (lookup x m) o ≡ o
nothing_first m x o h = rw (nothing m x h) refl

all-Fresh : (entries : Components) (m : Running) → IsSorted entries → m ≡ [] → Fresh entries m
all-Fresh entries m s h =
    Fresh-intro entries m (IsSorted-IsUnique entries s) (λ x _ _. nothing m x h)

pub first_sinks :
    (s : Startup) (d : Daemon) → Idle d → SinkSteps d (sinks_added s d) (started_sink s d)
first_sinks s d idle =
    let none_runs : sinks_running d.sinks ≡ [] = ap sinks_running idle.no_sinks in
    let m = sinks_running d.sinks in
    let entries = d.config.sinks in
    let adding =
      add_sinks_lem s.at_sink entries d (IsSorted-IsUnique entries idle.sorted_sinks)
        (all-Fresh entries m idle.sorted_sinks none_runs) (nothing_twice m none_runs) in
    record {
      running = λ x.
          adding.running x
          ∙ nothing_first m x (sink_of s.at_sink d x (lookup x entries)) none_runs
          ∙ sink_of-picked s.at_sink d x (lookup x entries);
      unique = adding.unique;
      only = adding.only;
      wired = adding.wired;
    }

pub first_probes :
    (at : Bytes → Machine) (entries : Components) (c : Daemon)
    → IsSorted entries
    → probes_running c.probes ≡ []
    → ProbeSteps c (add_probes at entries c).0 (λ x. probe_of at c x (lookup x entries))
first_probes at entries c sorted none_runs =
    let m = probes_running c.probes in
    let adding =
      add_probes_lem at entries c (IsSorted-IsUnique entries sorted)
        (all-Fresh entries m sorted none_runs) (nothing_twice m none_runs) in
    record {
      within = λ x a l.
          sym (nothing_first m x (probe_of at c x (lookup x entries)) none_runs)
          ∙ adding.within x a l;
      kept = adding.kept;
      unique = adding.unique;
      only = adding.only;
    }
