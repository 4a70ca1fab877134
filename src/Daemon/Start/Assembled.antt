-- ===== src/Daemon/Start/Assembled.antt =====
-- The start from the sinks on, as a whole.
use slurm_tracer.Common.{
  ℕ, ◌≡◌, refl, sym, ap, subst, ◌∙◌, inl, inr, not, [], some, true, false, arith, Option-cases,
  Bool-cases,
}
use slurm_tracer.Text.{Bytes}
use slurm_tracer.Dict.{text_key, lookup}
use slurm_tracer.Dict.Retain.{IsSorted}
use slurm_tracer.Attribution.Resolver.{CgroupResolver}
use slurm_tracer.Config.{Config}
use slurm_tracer.Daemon.{Daemon, wire_sinks}
use slurm_tracer.Daemon.Start.{Startup, add_probes, has_none, assemble}
use slurm_tracer.Daemon.Running.{IsUnique, sinks_running, probes_running}
use slurm_tracer.Daemon.Running.Sinks.{wire_sinks_lem}
use slurm_tracer.Daemon.Reload.Running.{probe_of_dir}
use slurm_tracer.Daemon.Reload.Applied.{IsWired-probes}
use slurm_tracer.Daemon.Start.Begun.{
  started_sink, started_probe, Begun, started_sink-eq-none, started_probe-eq-none, sinks_added,
  piped, watched, wired_pipes, Idle, first_sinks, first_probes, watcher_only,
}

all_up :
    (s : Startup) (d : Daemon) (resolver : CgroupResolver)
    → Idle d
    → let last = (add_probes s.at_probe d.config.probes (watched s d resolver).daemon).0 in
      has_none (sinks_added s d).sinks ≡ false → has_none last.probes ≡ false → Begun s d last
all_up s d resolver idle some_sink some_probe =
    let e = sinks_added s d in
    let p = piped s d resolver in
    let c = (watched s d resolver).daemon in
    let last = (add_probes s.at_probe d.config.probes c).0 in
    let by_sinks = first_sinks s d idle in
    let (same_sinks, wired, piping) = wire_sinks_lem p in
    let (watching, same_probes) = watcher_only s (wire_sinks p) in
    let none_runs : probes_running c.probes ≡ [] =
      ap probes_running (same_probes ∙ piping.probes ∙ by_sinks.only.probes ∙ idle.no_probes) in
    let by_probes = first_probes s.at_probe d.config.probes c idle.sorted_probes none_runs in
    let config = by_probes.only.config ∙ watching.config ∙ piping.config ∙ by_sinks.only.config in
    let sinks = by_probes.only.sinks ∙ watching.sinks ∙ same_sinks in
    let dir = watching.plugin_dir ∙ piping.plugin_dir ∙ by_sinks.only.plugin_dir in
    let run_sinks : (x : Bytes) → lookup x (sinks_running last.sinks) ≡ started_sink s d x =
      λ x. ap (λ t. lookup x (sinks_running t)) sinks ∙ by_sinks.running x in
    let run_probes : (x : Bytes) (a : ℕ)
        → lookup x (probes_running last.probes) ≡ some a
        → started_probe s d x ≡ some a =
      λ x a l.
        sym (probe_of_dir s.at_probe d c x (lookup x d.config.probes) dir)
        ∙ by_probes.within x a l in
    record {
      settled = record {
        sorted_probes = subst (λ (k : Config). IsSorted k.probes) (sym config) idle.sorted_probes;
        sorted_sinks = subst (λ (k : Config). IsSorted k.sinks) (sym config) idle.sorted_sinks;
        unique_probes = by_probes.unique;
        unique_sinks = subst (λ t. IsUnique (sinks_running t)) (sym sinks) by_sinks.unique;
        configured_probes = λ x h. elim (Option-cases (lookup x (probes_running last.probes))) [
          | inl n ↦ n
          | inr (a, n) ↦
              let absent = ap (λ (k : Config). lookup x k.probes) (sym config) ∙ h in
              absurd (ground (arith, run_probes x a n, started_probe-eq-none s d x absent))
        ];
        configured_sinks = λ x h.
            run_sinks x
            ∙ started_sink-eq-none s d x (ap (λ (k : Config). lookup x k.sinks) (sym config) ∙ h);
      };
      wired = IsWired-probes c last by_probes.only (IsWired-probes (wire_sinks p) c watching wired);
      pipes = λ h. wired_pipes p _ refl (sym watching.pipeline ∙ sym by_probes.only.pipeline ∙ h);
      some_sink = ap has_none sinks ∙ some_sink;
      some_probe = some_probe;
      config = config;
      config_path =
          by_probes.only.config_path ∙ watching.config_path ∙ piping.config_path
          ∙ by_sinks.only.config_path;
      sinks = run_sinks;
      probes = run_probes;
    }

pub assemble-Begun :
    (s : Startup) (d : Daemon) (resolver : CgroupResolver)
    → Idle d
    → (assemble s d resolver).ok ≡ true
    → Begun s d (assemble s d resolver).daemon
unfolding assemble
assemble-Begun s d resolver idle h = elim (Bool-cases (has_none (sinks_added s d).sinks)) [
  | inl e ↦ absurd (ground (arith, e, h))
  | inr e ↦ elim (Bool-cases (watched s d resolver).ok) [
    | inr f ↦ absurd (ground (arith, rw (e, f, assemble) at h, f))
    | inl f ↦
        let running : not (
              has_none
                (add_probes s.at_probe d.config.probes (watched s d resolver).daemon).0.probes)
            ≡ true =
          rw (e, f, assemble) at h in
        rw (e, f, assemble) (all_up s d resolver idle e (ground (arith, running)))
  ]
]
