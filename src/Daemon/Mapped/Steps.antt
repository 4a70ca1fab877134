-- ===== src/Daemon/Mapped/Steps.antt =====
-- The plugins that are held, through the operations on probes and sinks.
use slurm_tracer.Common.{
  ◌≡◌, refl, sym, ap, subst, ◌∙◌, inl, inr, [], ◌∷◌, ◌++◌, arith, Option-cases,
}
use slurm_tracer.Text.{Bytes}
use slurm_tracer.Text.Laws.{same_refl}
use slurm_tracer.Dict.{text_key, erase}
use slurm_tracer.Config.{ComponentConfig, plugin_of}
use slurm_tracer.PluginLoader.{PluginLoader, load_sink, unload_sink, close_handle}
use slurm_tracer.Daemon.{LoadedSink, Daemon, Machine, wire_sinks, add_sink, take_sink, remove_sink}
use slurm_tracer.Daemon.Running.{
  IsUnique, sinks_running, probes_running, sinks_running-append, lookup-erase,
}
use slurm_tracer.Daemon.Running.Sinks.{wire_sinks_lem, take_sink-erase}
use slurm_tracer.Daemon.Mapped.{IsMapped, insert-IsMapped, close_handle-IsMapped, load_sink_handles}

abbrev pub SinksMapped : Daemon → Type 0
SinksMapped d = IsMapped (sinks_running d.sinks) d.loader.sink_handles

abbrev pub ProbesMapped : Daemon → Type 0
ProbesMapped d = IsMapped (probes_running d.probes) d.loader.probe_handles

wire_loader : (d : Daemon) → (wire_sinks d).loader ≡ d.loader
unfolding wire_sinks
wire_loader d = elim (Option-cases d.pipeline) [
  | inl e ↦ rw (e, wire_sinks) refl
  | inr (p, e) ↦ rw (e, wire_sinks) refl
]

-- Both maps after an operation on the sinks.
pub record SinkHeld (d e : Daemon) : Type 0 where
  pub sinks : SinksMapped e
  pub others : e.loader.probe_handles ≡ d.loader.probe_handles

pub add_sink-SinkHeld :
    (m : Machine) (d : Daemon) (id : Bytes) (config : ComponentConfig)
    → SinksMapped d
    → SinkHeld d (add_sink m d id config).0
unfolding add_sink
add_sink-SinkHeld m d id config h =
    let l = load_sink m.linker d.loader id (plugin_of id config) config in
    let (without, with_one) = load_sink_handles m.linker d.loader id (plugin_of id config) config in
    elim (Option-cases l.component) [
      | inl e ↦
          let same_loader = without e in
          rw (e, add_sink)
            (record {
              sinks =
                  subst (λ (k : PluginLoader). IsMapped (sinks_running d.sinks) k.sink_handles)
                    (sym same_loader) h;
              others = ap (λ (k : PluginLoader). k.probe_handles) same_loader;
            })
      | inr (c, e) ↦
          let (k, held) = with_one c e in
          let s : LoadedSink = record { id = id; sink = c } in
          let pushed : Daemon = record d { loader = l.loader; sinks = d.sinks ++ s ∷ [] } in
          let (same_sinks, _, _) = wire_sinks_lem pushed in
          let loader = wire_loader pushed ∙ held in
          let grown = insert-IsMapped id c k (sinks_running d.sinks) d.loader.sink_handles h in
          let list = ap sinks_running same_sinks ∙ sinks_running-append d.sinks (s ∷ []) in
          rw (e, add_sink)
            (record {
              sinks =
                  subst (λ t. IsMapped t (wire_sinks pushed).loader.sink_handles) (sym list)
                    (subst
                      (λ (k : PluginLoader).
                        IsMapped (sinks_running d.sinks ++ (id, c) ∷ []) k.sink_handles)
                      (sym loader) grown);
              others = ap (λ (k : PluginLoader). k.probe_handles) loader;
            })
    ]

pub remove_sink-SinkHeld :
    (d : Daemon) (id : Bytes)
    → IsUnique (sinks_running d.sinks)
    → SinksMapped d
    → SinkHeld d (remove_sink d id).0
unfolding remove_sink unload_sink
remove_sink-SinkHeld d id u h = elim (Option-cases (take_sink id d.sinks)) [
  | inl e ↦ rw (e, remove_sink) (record { sinks = h; others = refl })
  | inr ((s, rest), e) ↦
      let left : Daemon = record d { sinks = rest } in
      let (same_sinks, _, _) = wire_sinks_lem left in
      let m = sinks_running d.sinks in
      let list = ap sinks_running same_sinks ∙ (take_sink-erase id d.sinks).1 s rest e in
      let loader = wire_loader left in
      let fewer =
        close_handle-IsMapped id m (erase id m) d.loader.sink_handles h
          (λ x a l. ground (arith, lookup-erase id x m u, l))
          (ground (arith, lookup-erase id id m u, same_refl id)) in
      rw (e, remove_sink)
        (record {
          sinks =
              subst (λ t. IsMapped t (close_handle d.loader.sink_handles id).0) (sym list) fewer;
          others = refl;
        })
]
