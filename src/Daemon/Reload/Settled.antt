-- ===== src/Daemon/Reload/Settled.antt =====
-- Every reload comes to its end, and what runs then.
use slurm_tracer.Common.{
  ◌≡◌, refl, sym, ap, subst, ◌∙◌, ◌⊎◌, inl, inr, List, [], none, some, false, arith, Option-cases,
  Bool-cases, ℕ, Option, if◌then◌else◌,
}
use slurm_tracer.Text.{Bytes, is_empty, same}
use slurm_tracer.Text.Laws.{same_iff}
use slurm_tracer.Dict.{text_key, lookup}
use slurm_tracer.Dict.Retain.{IsSorted}
use slurm_tracer.Config.{ComponentConfig, Config, ConfigDiff, plugin_of, differs, diff_for_reload}
use slurm_tracer.Config.File.{
  raises, loaded, Loaded-cases, load_config_file, load_config_file-eq-none,
}
use slurm_tracer.Config.File.Enabled.{load_config_file_enabled}
use slurm_tracer.Daemon.{Daemon, Call}
use slurm_tracer.Daemon.Reload.{Surroundings, apply_diff, reload_config}
use slurm_tracer.Daemon.Reload.Chosen.{Components}
use slurm_tracer.Daemon.Reload.Reached.{expected}
use slurm_tracer.Daemon.Reload.Applied.{
  IsSettled, Applied, expected_sink, expected_probe, diff_for_reload_is, apply_diff_lem,
}
use slurm_tracer.Daemon.Running.{Running, sinks_running, probes_running}
use slurm_tracer.Daemon.Running.Sinks.{IsWired, loaded_sink}
use slurm_tracer.Daemon.Running.Added.{loaded_probe}

expected_probe-eq-none :
    (s : Surroundings) (next : Config) (d : Daemon) (x : Bytes)
    → lookup x next.probes ≡ none
    → expected_probe s next d x ≡ none
expected_probe-eq-none s next d x h =
    ap (expected d.config.probes (probes_running d.probes) (λ y. loaded_probe (s.at_probe y) d y) x)
      h

expected_sink-eq-none :
    (s : Surroundings) (next : Config) (d : Daemon) (x : Bytes)
    → lookup x next.sinks ≡ none
    → expected_sink s next d x ≡ none
expected_sink-eq-none s next d x h =
    ap (expected d.config.sinks (sinks_running d.sinks) (λ y. loaded_sink (s.at_sink y) d y) x) h

Applied-IsSettled :
    (s : Surroundings) (next : Config) (d e : Daemon)
    → IsSorted next.probes
    → IsSorted next.sinks
    → Applied s next d e
    → IsSettled e
Applied-IsSettled s next d e sorted_probes sorted_sinks h =
    let idle : (x : Bytes)
        → lookup x next.probes ≡ none
        → lookup x (probes_running e.probes) ≡ none =
      λ x k. elim (Option-cases (lookup x (probes_running e.probes))) [
        | inl n ↦ n
        | inr (a, n) ↦ absurd (ground (arith, h.probes x a n, expected_probe-eq-none s next d x k))
      ] in
    record {
      sorted_probes = subst (λ (c : Config). IsSorted c.probes) (sym h.config) sorted_probes;
      sorted_sinks = subst (λ (c : Config). IsSorted c.sinks) (sym h.config) sorted_sinks;
      unique_probes = h.unique_probes;
      unique_sinks = h.unique_sinks;
      configured_probes = λ x k. idle x (ap (λ (c : Config). lookup x c.probes) (sym h.config) ∙ k);
      configured_sinks = λ x k.
          h.sinks x
          ∙ expected_sink-eq-none s next d x
              (ap (λ (c : Config). lookup x c.sinks) (sym h.config) ∙ k);
    }

reload_config-Applied :
    (s : Surroundings) (d : Daemon) (next : Config) (diff : ConfigDiff)
    → IsSettled d
    → is_empty d.config_path ≡ false
    → load_config_file s.printer (s.files d.config_path) ≡ some (loaded next)
    → diff_for_reload d.config next ≡ some diff
    → (e : Daemon) × (calls : List Call) × (reload_config s d ≡ some (e, calls))
      × Applied s next d e
unfolding reload_config
reload_config-Applied s d next diff h path file differs =
    let (sorted_probes, sorted_sinks, _) =
      load_config_file_enabled s.printer (s.files d.config_path) next file in
    let (e, calls, applied, all) = apply_diff_lem s next d h sorted_probes sorted_sinks in
    let same_diff = diff_for_reload_is d.config next diff differs in
    let whole = ap (λ k. apply_diff s next k d) same_diff ∙ applied in
    (e, calls, rw (path, file, differs, reload_config) whole, all)

-- If the configuration's maps are in order, no id runs twice, and none runs that is not configured, then a
-- reload comes to one of two ends. Either the daemon has a configuration file, and the JSON parser throws
-- on it anything but a parse_error: then that exception leaves the reload. Or the reload returns, and no
-- lookup of an entry that it is to add fails. The same holds of the daemon afterwards, with the file's path
-- as it was, and if the pipeline held the daemon's sinks, it holds them again. Plugins and libbpf may refuse
-- whatever they are asked for, but throw nothing.
pub reload_config-IsSettled :
    (s : Surroundings) (d : Daemon)
    → IsSettled d
    → ((is_empty d.config_path ≡ false)
        × (s.files d.config_path ≡ raises)
        × (reload_config s d ≡ none))
      ⊎ ((e : Daemon) × (calls : List Call) × (reload_config s d ≡ some (e, calls))
          × IsSettled e
          × (IsWired d → IsWired e)
          × (e.config_path ≡ d.config_path))
unfolding reload_config
reload_config-IsSettled s d h = elim (Bool-cases (is_empty d.config_path)) [
  | inl p ↦ inr (d, [], rw (p, reload_config) refl, h, λ w. w, refl)
  | inr p ↦ elim (Loaded-cases (load_config_file s.printer (s.files d.config_path))) [
    | inl f ↦ inl (p, load_config_file-eq-none _ _ f, rw (p, f, reload_config) refl)
    | inr (inl (why, f)) ↦ inr (d, [], rw (p, f, reload_config) refl, h, λ w. w, refl)
    | inr (inr (next, f)) ↦ elim (Option-cases (diff_for_reload d.config next)) [
      | inl g ↦ inr (d, [], rw (p, f, g, reload_config) refl, h, λ w. w, refl)
      | inr (diff, g) ↦
          let (e, calls, applied, all) = reload_config-Applied s d next diff h p f g in
          let (sorted_probes, sorted_sinks, _) =
            load_config_file_enabled s.printer (s.files d.config_path) next f in
          inr (
            e,
            calls,
            applied,
            Applied-IsSettled s next d e sorted_probes sorted_sinks all,
            all.wired,
            all.config_path,
          )
    ]
  ]
]

-- What is to run under an id, from what ran: of an entry of the new file, the instance that ran if the file
-- before had the id with the same plugin, and otherwise what is loaded; and nothing if there is no entry.
abbrev wanted :
    Components
    → Running
    → (Bytes → ComponentConfig → Option ℕ)
    → Bytes
    → Option ComponentConfig
    → Option ℕ
wanted current m fresh x none = none
wanted current m fresh x (some config) = elim (lookup x current) [
  | none ↦ fresh x config
  | some old ↦ if same (plugin_of x old) (plugin_of x config) then lookup x m else fresh x config
]

wanted_lem :
    (current : Components) (m : Running) (fresh : Bytes → ComponentConfig → Option ℕ) (x : Bytes)
    (o : Option ComponentConfig)
    → expected current m fresh x o ≡ wanted current m fresh x o
unfolding differs
wanted_lem current m fresh x none = refl
wanted_lem current m fresh x (some config) = elim (Option-cases (lookup x current)) [
  | inl e ↦ ground (arith, e)
  | inr (old, e) ↦ ground (
    arith,
    e,
    same_iff (plugin_of x old) (plugin_of x config),
    same_iff (plugin_of x config) (plugin_of x old),
  )
]

abbrev pub wanted_sink : Surroundings → Config → Daemon → Bytes → Option ℕ
wanted_sink s next d x =
    wanted d.config.sinks (sinks_running d.sinks) (λ y. loaded_sink (s.at_sink y) d y) x
      (lookup x next.sinks)

abbrev pub wanted_probe : Surroundings → Config → Daemon → Bytes → Option ℕ
wanted_probe s next d x =
    wanted d.config.probes (probes_running d.probes) (λ y. loaded_probe (s.at_probe y) d y) x
      (lookup x next.probes)

-- A reload of a settled daemon with a file that is loaded, and that differs only in its probes and sinks.
-- Afterwards, under each id runs the sink that ran under it, the very same, if the new file has the id with
-- the plugin that it had; what the plugin gives, if the new file has the id anew or with another plugin; and
-- none, if it has not. Of the probes, none runs but the one that the same rule says, where a new one must
-- also open, load and attach.
pub reload_config_lem :
    (s : Surroundings) (d : Daemon) (next : Config) (diff : ConfigDiff)
    → IsSettled d
    → is_empty d.config_path ≡ false
    → load_config_file s.printer (s.files d.config_path) ≡ some (loaded next)
    → diff_for_reload d.config next ≡ some diff
    → (e : Daemon) × (calls : List Call) × (reload_config s d ≡ some (e, calls))
      × ((x : Bytes) → lookup x (sinks_running e.sinks) ≡ wanted_sink s next d x)
      × ((x : Bytes) (a : ℕ)
          → lookup x (probes_running e.probes) ≡ some a
          → wanted_probe s next d x ≡ some a)
reload_config_lem s d next diff h path file differs =
    let (e, calls, applied, all) = reload_config-Applied s d next diff h path file differs in
    let sink_of = λ (y : Bytes). loaded_sink (s.at_sink y) d y in
    let probe_of = λ (y : Bytes). loaded_probe (s.at_probe y) d y in
    (
      e,
      calls,
      applied,
      λ x.
          all.sinks x
          ∙ wanted_lem d.config.sinks (sinks_running d.sinks) sink_of x (lookup x next.sinks),
      λ x a h.
          sym
            (wanted_lem d.config.probes (probes_running d.probes) probe_of x (lookup x next.probes))
          ∙ all.probes x a h,
    )
