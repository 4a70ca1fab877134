-- ===== src/Daemon/Reload/Applied.antt =====
-- A reload as a whole.
use mathlib.Core.Option.{some-injective}
use slurm_tracer.Common.{
  ℕ, ◌≡◌, refl, sym, ap, subst, ◌∙◌, inl, inr, List, ◌++◌, map, Option, none, some, arith,
  if◌then◌else◌, Bool-cases,
}
use slurm_tracer.Text.{Bytes}
use slurm_tracer.Dict.{text_key, lookup}
use slurm_tracer.Dict.Retain.{IsSorted}
use slurm_tracer.Config.{
  ComponentConfig, Config, ConfigDiff, diff_components, diff_for_reload, differs, same_fixed,
}
use slurm_tracer.Daemon.{LoadedSink, Daemon, Call}
use slurm_tracer.Daemon.Start.{add_sinks, add_probes}
use slurm_tracer.Daemon.Reload.{Surroundings, adopt, remove_sinks, remove_probes, apply_diff}
use slurm_tracer.Daemon.Reload.Chosen.{Components, chosen, Agrees-refl}
use slurm_tracer.Daemon.Reload.Reached.{Configured, expected, add_new_sinks_lem, sinks_reached}
use slurm_tracer.Daemon.Reload.Probes.{add_new_probes_lem, loaded_probe_dir}
use slurm_tracer.Daemon.Reload.Running.{probes_reached}
use slurm_tracer.Daemon.Running.{Running, IsUnique, sinks_running, probes_running}
use slurm_tracer.Daemon.Running.Sinks.{IsWired, SinksOnly, loaded_sink}
use slurm_tracer.Daemon.Running.Probes.{ProbesOnly}
use slurm_tracer.Daemon.Running.Added.{loaded_probe}

-- The configuration's maps are in the order of their keys, no id runs twice, and none runs that is not
-- configured.
pub record IsSettled (d : Daemon) : Type 0 where
  pub sorted_probes : IsSorted d.config.probes
  pub sorted_sinks : IsSorted d.config.sinks
  pub unique_probes : IsUnique (probes_running d.probes)
  pub unique_sinks : IsUnique (sinks_running d.sinks)
  pub configured_probes : Configured d.config.probes (probes_running d.probes)
  pub configured_sinks : Configured d.config.sinks (sinks_running d.sinks)

-- The sink that is to run under an id, and the probe that is to run if it is not dropped.
abbrev pub expected_sink : Surroundings → Config → Daemon → Bytes → Option ℕ
expected_sink s next d x =
    expected d.config.sinks (sinks_running d.sinks) (λ y. loaded_sink (s.at_sink y) d y) x
      (lookup x next.sinks)

abbrev pub expected_probe : Surroundings → Config → Daemon → Bytes → Option ℕ
expected_probe s next d x =
    expected d.config.probes (probes_running d.probes) (λ y. loaded_probe (s.at_probe y) d y) x
      (lookup x next.probes)

pub record Applied (s : Surroundings) (next : Config) (d e : Daemon) : Type 0 where
  pub sinks : (x : Bytes) → lookup x (sinks_running e.sinks) ≡ expected_sink s next d x
  pub probes :
      (x : Bytes) (a : ℕ)
      → lookup x (probes_running e.probes) ≡ some a
      → expected_probe s next d x ≡ some a
  pub config : e.config ≡ record d.config { probes = next.probes; sinks = next.sinks }
  pub config_path : e.config_path ≡ d.config_path
  pub unique_probes : IsUnique (probes_running e.probes)
  pub unique_sinks : IsUnique (sinks_running e.sinks)
  pub wired : IsWired d → IsWired e

abbrev pub the_diff : Config → Config → ConfigDiff
the_diff current next = record {
  added_probes = diff_components next.probes current.probes;
  removed_probes = diff_components current.probes next.probes;
  added_sinks = diff_components next.sinks current.sinks;
  removed_sinks = diff_components current.sinks next.sinks;
}

pub diff_for_reload_is :
    (current next : Config) (diff : ConfigDiff)
    → diff_for_reload current next ≡ some diff
    → diff ≡ the_diff current next
unfolding diff_for_reload
diff_for_reload_is current next diff h = elim (Bool-cases (same_fixed current next)) [
  | inl e ↦ sym (some-injective (the_diff current next) diff (rw (e, diff_for_reload) at h))
  | inr e ↦ absurd (ground (arith, e, h))
]

expected_fresh :
    (current : Components) (m : Running) (f g : Bytes → ComponentConfig → Option ℕ) (x : Bytes)
    (o : Option ComponentConfig)
    → ((c : ComponentConfig) → f x c ≡ g x c)
    → expected current m f x o ≡ expected current m g x o
expected_fresh current m f g x none h = refl
expected_fresh current m f g x (some c) h =
    ap (λ a. if differs current x c then a else lookup x m) (h c)

pub IsWired-probes : (d e : Daemon) → ProbesOnly d e → IsWired d → IsWired e
IsWired-probes d e only w p h =
    w p (sym only.pipeline ∙ h) ∙ ap (map (λ (t : LoadedSink). t.sink)) (sym only.sinks)

-- The probes' part, seen from before the sinks' part.
probes_before :
    (s : Surroundings) (next : Config) (d b : Daemon) (x : Bytes)
    → SinksOnly d b
    → expected d.config.probes
        (probes_running b.probes)
        (λ y. loaded_probe (s.at_probe y) b y)
        x
        (lookup x next.probes)
      ≡ expected_probe s next d x
probes_before s next d b x only =
    let o = lookup x next.probes in
    let fresh = λ (y : Bytes). loaded_probe (s.at_probe y) d y in
    expected_fresh d.config.probes (probes_running b.probes) (λ y. loaded_probe (s.at_probe y) b y)
      fresh x o (λ c. loaded_probe_dir (s.at_probe x) d b x c only.plugin_dir)
    ∙ ap (λ ps. expected d.config.probes (probes_running ps) fresh x o) only.probes

pub apply_diff_lem :
    (s : Surroundings) (next : Config) (d : Daemon)
    → IsSettled d
    → IsSorted next.probes
    → IsSorted next.sinks
    → (e : Daemon) × (calls : List Call) × (apply_diff s next (the_diff d.config next) d
        ≡ some (e, calls))
      × Applied s next d e
unfolding apply_diff
apply_diff_lem s next d h sorted_probes sorted_sinks =
    let cs = d.config.sinks in
    let cp = d.config.probes in
    let (a, calls) = remove_sinks (diff_components cs next.sinks) d in
    let (b, more) = add_sinks s.at_sink (chosen next.sinks cs) a in
    let (c, later) = remove_probes s.at_removal (diff_components cp next.probes) b in
    let (last, rest) = add_probes s.at_probe (chosen next.probes cp) c in
    let new_sinks =
      add_new_sinks_lem s.at_sink next.sinks cs next.sinks a
        (Agrees-refl next.sinks sorted_sinks) in
    let new_probes =
      add_new_probes_lem s.at_probe next.probes cp next.probes c
        (Agrees-refl next.probes sorted_probes) in
    let by_sinks =
      sinks_reached s.at_sink cs next.sinks d h.sorted_sinks sorted_sinks h.unique_sinks
        h.configured_sinks in
    let same_probes = ap probes_running by_sinks.only.probes in
    let (reached, unique, only) =
      probes_reached s.at_removal s.at_probe cp next.probes b h.sorted_probes sorted_probes
        (subst IsUnique (sym same_probes) h.unique_probes)
        (subst (Configured cp) (sym same_probes) h.configured_probes) in
    (
      adopt next last,
      calls ++ (more ++ (later ++ rest)),
      rw (new_sinks, new_probes, apply_diff) refl,
      record {
        sinks = λ x. ap (λ t. lookup x (sinks_running t)) only.sinks ∙ by_sinks.running x;
        probes = λ x n l. sym (probes_before s next d b x by_sinks.only) ∙ reached x n l;
        config =
            ap (λ (k : Config). record k { probes = next.probes; sinks = next.sinks })
              (only.config ∙ by_sinks.only.config);
        config_path = only.config_path ∙ by_sinks.only.config_path;
        unique_probes = unique;
        unique_sinks = subst (λ t. IsUnique (sinks_running t)) (sym only.sinks) by_sinks.unique;
        wired = λ w. IsWired-probes b last only (by_sinks.wired w);
      },
    )
