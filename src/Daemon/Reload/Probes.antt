-- ===== src/Daemon/Reload/Probes.antt =====
-- Which probes can run after a reload: the event loop may drop some of them while it is built anew.
use slurm_tracer.Common.{
  ℕ, ◌≡◌, refl, sym, ap, ◌∙◌, inl, inr, List, [], ◌∷◌, Option, none, some, true, arith,
  Option-cases, Bool-cases,
}
use slurm_tracer.Text.{Bytes, codes, same}
use slurm_tracer.Text.Laws.{same_iff}
use slurm_tracer.Dict.{text_key, lookup, retain}
use slurm_tracer.Config.{ComponentConfig, differs, diff_components, plugin_of}
use slurm_tracer.Config.Diff.{contains}
use slurm_tracer.PluginLoader.{Linker, PluginLoader, load_probe, open_plugin, plugin_path}
use slurm_tracer.Daemon.{Daemon, Machine, add_probe, remove_probe}
use slurm_tracer.Daemon.Start.{add_probes}
use slurm_tracer.Daemon.Reload.{after, remove_probes, add_new_probes}
use slurm_tracer.Daemon.Reload.Chosen.{Components, chosen, Agrees}
use slurm_tracer.Daemon.Running.{IsUnique, probes_running, otherwise}
use slurm_tracer.Daemon.Running.Probes.{
  ProbesOnly, Within, Within-none, Fewer, Fewer-refl, Fewer-trans, remove_probe_lem,
}
use slurm_tracer.Daemon.Running.Added.{loaded_probe}
use slurm_tracer.Daemon.Reload.Sinks.{component_only}
use slurm_tracer.Daemon.Reload.Reached.{picked}

pub add_new_probes_lem :
    (at : Bytes → Machine) (full other m : Components) (d : Daemon)
    → Agrees m full
    → add_new_probes at full (diff_components m other) d ≡ some (add_probes at (chosen m other) d)
unfolding add_new_probes add_probes chosen retain diff_components
add_new_probes_lem at full other [] d h = refl
add_new_probes_lem at full other ((id, config) ∷ m) d h =
    elim (Bool-cases (differs other id config)) [
      | inl e ↦
          let (next, calls) = add_probe (at id) d id config in
          rw (e, h.0, diff_components, retain, add_new_probes, add_probes)
            (ap (after calls) (add_new_probes_lem at full other m next h.1))
      | inr e ↦ rw (e, diff_components, retain) (add_new_probes_lem at full other m d h.1)
    ]

pub remove_probes_lem :
    (at : Bytes → Machine) (ids : List Bytes) (d : Daemon)
    → IsUnique (probes_running d.probes)
    → Fewer d (remove_probes at ids d).0
      × ((x : Bytes)
          → contains x ids ≡ true
          → lookup x (probes_running (remove_probes at ids d).0.probes) ≡ none)
unfolding remove_probes contains
remove_probes_lem at [] d u = (Fewer-refl d u, λ x h. cc)
remove_probes_lem at (id ∷ ids) d u =
    let (step, gone) = remove_probe_lem (at id) d id u in
    let e = (remove_probe (at id) d id).0 in
    let (more, later) = remove_probes_lem at ids e step.unique in
    let last = (remove_probes at ids e).0 in
    (
      Fewer-trans d e last step more,
      λ x h. elim (Bool-cases (same id x)) [
        | inl s ↦
            let absent =
              ap (λ k. lookup k (probes_running e.probes)) (sym ((same_iff id x).0 s)) ∙ gone in
            Within-none (probes_running last.probes) (probes_running e.probes) x more.within absent
        | inr s ↦ later x (ground (arith, s, h))
      ],
    )

given_probe :
    (ld : Linker) (l : PluginLoader) (id plugin : Bytes) (config : ComponentConfig)
    → (load_probe ld l id plugin config).component
      ≡ component_only
          (open_plugin ld
            (plugin_path l.plugin_dir (codes "probe") plugin)
            (codes "st_register_probe")
            plugin
            config).0
unfolding load_probe
given_probe ld l id plugin config =
    let path = plugin_path l.plugin_dir (codes "probe") plugin in
    elim (Option-cases (open_plugin ld path (codes "st_register_probe") plugin config).0) [
      | inl e ↦ rw (e, load_probe) refl
      | inr (c, e) ↦ rw (e, load_probe) refl
    ]

pub loaded_probe_dir :
    (m : Machine) (d e : Daemon) (id : Bytes) (config : ComponentConfig)
    → e.loader.plugin_dir ≡ d.loader.plugin_dir
    → loaded_probe m e id config ≡ loaded_probe m d id config
unfolding loaded_probe
loaded_probe_dir m d e id config h =
    let plugin = plugin_of id config in
    let given =
      given_probe m.linker e.loader id plugin config
      ∙ ap
          (λ dir.
            component_only
              (open_plugin m.linker (plugin_path dir (codes "probe") plugin)
                (codes "st_register_probe") plugin config).0)
          h
      ∙ sym (given_probe m.linker d.loader id plugin config) in
    rw (given, loaded_probe) refl

-- What the loop that adds does: all that ran runs on, and what else runs is a probe that was loaded.
pub record ProbeSteps (d e : Daemon) (now : Bytes → Option ℕ) : Type 0 where
  pub within : (x : Bytes) (a : ℕ) → lookup x (probes_running e.probes) ≡ some a → now x ≡ some a
  pub kept : Within (probes_running d.probes) (probes_running e.probes)
  pub unique : IsUnique (probes_running e.probes)
  pub only : ProbesOnly d e

abbrev pub probe_of : (Bytes → Machine) → Daemon → Bytes → Option ComponentConfig → Option ℕ
probe_of at d = picked (λ y. loaded_probe (at y) d y)

abbrev pub after_adding : (Bytes → Machine) → Daemon → Components → Bytes → Option ℕ
after_adding at d entries x =
    otherwise (lookup x (probes_running d.probes)) (probe_of at d x (lookup x entries))
