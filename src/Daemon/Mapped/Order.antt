-- ===== src/Daemon/Mapped/Order.antt =====
-- Adding and removing, by the order of the calls that they make.
use slurm_tracer.Common.{
  ℕ, ◌≡◌, refl, sym, ap, ◌∙◌, inl, inr, ◌&&◌, List, [], ◌∷◌, ◌++◌, map, some, true, arith, is_some,
  Option-cases, Bool-cases,
}
use slurm_tracer.Text.{Bytes, same}
use slurm_tracer.Dict.{text_key, lookup}
use slurm_tracer.Dict.Laws.{lookup-insert_self}
use slurm_tracer.Config.{ComponentConfig, plugin_of}
use slurm_tracer.EventLoop.{add, remove}
use slurm_tracer.PluginLoader.{
  PluginLoader, close_handle, load_probe, load_sink, unload_probe, unload_sink,
}
use slurm_tracer.Daemon.{
  LoadedSink, Daemon, Machine, detached, created, destroyed, linked, add_sink, take_sink,
  remove_sink, add_probe, take_probe, take_address, forget, forget_all, remove_probe,
}
use slurm_tracer.Daemon.Taken.{take_probe-Taken, take_address-Taken}
use slurm_tracer.Daemon.Running.{IsUnique, sinks_running, probes_running}
use slurm_tracer.Daemon.Running.Probes.{Taken-running, take_probe-id, forget-Fewer}
use slurm_tracer.Daemon.Mapped.{close_handle-IsMapped, load_probe_handles}
use slurm_tracer.Daemon.Mapped.Steps.{SinksMapped, ProbesMapped}
use slurm_tracer.Daemon.Mapped.Probes.{forget-ProbeHeld}
use slurm_tracer.Daemon.Mapped.Trace.{
  Exact, Exact-append, load_sink_calls, load_probe_calls, close_handle_calls,
}

pub add_sink-Exact :
    (m : Machine) (d : Daemon) (id : Bytes) (config : ComponentConfig)
    → Exact (add_sink m d id config).1
unfolding add_sink
add_sink-Exact m d id config =
    let l = load_sink m.linker d.loader id (plugin_of id config) config in
    let (without, with_one) = load_sink_calls m.linker d.loader id (plugin_of id config) config in
    elim (Option-cases l.component) [
      | inl e ↦ rw (e, add_sink) (without e)
      | inr (c, e) ↦ rw (e, add_sink) (with_one c e)
    ]

-- What is taken out stood under its id, and so its plugin is held.
take_sink_stood :
    (id : Bytes) (ss : List LoadedSink) (s : LoadedSink) (rest : List LoadedSink)
    → take_sink id ss ≡ some (s, rest)
    → (a : ℕ) × (lookup id (sinks_running ss) ≡ some a)
unfolding take_sink lookup
take_sink_stood id [] s rest h = cc
take_sink_stood id (t ∷ ss) s rest h = elim (Bool-cases (same t.id id)) [
  | inl e ↦ (t.sink, ground (arith, e))
  | inr e ↦ elim (Option-cases (take_sink id ss)) [
    | inl f ↦ absurd (ground (arith, rw (e, f, take_sink) at h))
    | inr ((u, us), f) ↦
        let (a, found) = take_sink_stood id ss u us f in (a, ground (arith, e, found))
  ]
]

pub remove_sink-Exact : (d : Daemon) (id : Bytes) → SinksMapped d → Exact (remove_sink d id).1
unfolding remove_sink unload_sink
remove_sink-Exact d id h = elim (Option-cases (take_sink id d.sinks)) [
  | inl e ↦ rw (e, remove_sink) (λ n. refl)
  | inr ((s, rest), e) ↦
      let (a, stood) = take_sink_stood id d.sinks s rest e in
      rw (e, remove_sink) (close_handle_calls s.sink d.loader.sink_handles id (h id a stood))
]

forget-Exact :
    (d : Daemon) (dead : ℕ)
    → IsUnique (probes_running d.probes)
    → ProbesMapped d
    → Exact (forget d dead).1
unfolding forget unload_probe
forget-Exact d dead u h = elim (Option-cases (take_address dead d.probes)) [
  | inl e ↦ rw (e, forget) (λ n. refl)
  | inr ((p, rest), e) ↦
      let (t, _) = take_address-Taken dead d.probes p rest e in
      let (_, _, stood, _) = Taken-running p rest d.probes t u in
      rw (e, forget) (close_handle_calls p.probe d.loader.probe_handles p.id (h p.id p.probe stood))
]

forget_all-Exact :
    (dead : List ℕ) (d : Daemon)
    → IsUnique (probes_running d.probes)
    → ProbesMapped d
    → Exact (forget_all d dead).1
unfolding forget_all
forget_all-Exact [] d u h = λ n. refl
forget_all-Exact (x ∷ xs) d u h =
    let e = (forget d x).0 in
    let more =
      forget_all-Exact xs e (forget-Fewer d x u).unique (forget-ProbeHeld d x u h).probes in
    Exact-append (forget d x).1 (forget_all e xs).1 (forget-Exact d x u h) more

pub remove_probe-Exact :
    (m : Machine) (d : Daemon) (id : Bytes)
    → IsUnique (probes_running d.probes)
    → ProbesMapped d
    → Exact (remove_probe m d id).1
unfolding remove_probe unload_probe
remove_probe-Exact m d id u h = elim (Option-cases (take_probe id d.probes)) [
  | inl e ↦ rw (e, remove_probe) (λ n. refl)
  | inr ((p, rest), e) ↦
      let t = take_probe-Taken id d.probes p rest e in
      let (unique, gone, stood, within) = Taken-running p rest d.probes t u in
      let its_id = take_probe-id id d.probes p rest e in
      let stands = ap (λ k. lookup k (probes_running d.probes)) (sym its_id) ∙ stood in
      let absent = ap (λ k. lookup k (probes_running rest)) (sym its_id) ∙ gone in
      let left : Daemon = record d {
        loop = (remove m.bpf d.loop p.probe).1;
        loader = (unload_probe d.loader id).0;
        probes = rest;
      } in
      let held =
        close_handle-IsMapped id (probes_running d.probes) (probes_running rest)
          d.loader.probe_handles h within absent in
      let dropped = (remove m.bpf d.loop p.probe).0 in
      rw (e, remove_probe)
        (Exact-append (destroyed p.probe ∷ map linked (close_handle d.loader.probe_handles id).1)
          (forget_all left dropped).1
          (close_handle_calls p.probe d.loader.probe_handles id (h id p.probe stands))
          (forget_all-Exact dropped left unique held))
]

pub add_probe-Exact :
    (m : Machine) (d : Daemon) (id : Bytes) (config : ComponentConfig)
    → Exact (add_probe m d id config).1
unfolding add_probe unload_probe
add_probe-Exact m d id config =
    let l = load_probe m.linker d.loader id (plugin_of id config) config in
    let (without, with_one) = load_probe_calls m.linker d.loader id (plugin_of id config) config in
    elim (Option-cases l.component) [
      | inl e ↦ rw (e, add_probe) (without e)
      | inr (c, e) ↦
          let (k, held) =
            (load_probe_handles m.linker d.loader id (plugin_of id config) config).1 c e in
          let handle : is_some (lookup id l.loader.probe_handles) ≡ true =
            ap (λ (q : PluginLoader). is_some (lookup id q.probe_handles)) held
            ∙ ap is_some (lookup-insert_self id k d.loader.probe_handles) in
          let made = with_one c e in
          let calls = map linked l.calls ++ created c ∷ [] in
          let closing = destroyed c ∷ map linked (close_handle l.loader.probe_handles id).1 in
          let closes = close_handle_calls c l.loader.probe_handles id handle in
          elim (Bool-cases (m.opens c config && m.loads c && m.attaches c)) [
            | inr u ↦ rw (e, u, add_probe) (Exact-append calls closing made closes)
            | inl u ↦ elim (Bool-cases (add m.bpf d.loop c m.new_emitter).0) [
              | inr v ↦
                  let told = Exact-append calls (detached c ∷ []) made (λ n. refl) in
                  rw (e, u, v, add_probe)
                    (Exact-append (calls ++ detached c ∷ []) closing told closes)
              | inl v ↦ rw (e, u, v, add_probe) made
            ]
          ]
    ]
