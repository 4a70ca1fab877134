-- ===== src/Daemon/Mapped/Probes.antt =====
-- The plugins of the probes, through the operations on probes.
use slurm_tracer.Common.{
  ℕ, ◌≡◌, refl, sym, ap, subst, ◌∙◌, inl, inr, ◌&&◌, List, [], ◌∷◌, ◌++◌, none, Option-cases,
  Bool-cases,
}
use slurm_tracer.Text.{Bytes}
use slurm_tracer.Dict.{text_key, lookup}
use slurm_tracer.Config.{ComponentConfig, plugin_of}
use slurm_tracer.EventLoop.{add, remove}
use slurm_tracer.PluginLoader.{PluginLoader, load_probe, unload_probe, close_handle}
use slurm_tracer.Daemon.{
  LoadedProbe, Daemon, Machine, add_probe, take_probe, take_address, forget, forget_all,
  remove_probe,
}
use slurm_tracer.Daemon.Taken.{take_probe-Taken, take_address-Taken}
use slurm_tracer.Daemon.Running.{IsUnique, probes_running, probes_running-append}
use slurm_tracer.Daemon.Running.Probes.{Taken-running, take_probe-id, forget-Fewer}
use slurm_tracer.Daemon.Mapped.{
  IsMapped, insert-IsMapped, close_handle-IsMapped, load_probe_handles, insert_close-IsMapped,
}
use slurm_tracer.Daemon.Mapped.Steps.{ProbesMapped}

-- Both maps after an operation on the probes.
pub record ProbeHeld (d e : Daemon) : Type 0 where
  pub probes : ProbesMapped e
  pub others : e.loader.sink_handles ≡ d.loader.sink_handles

pub forget-ProbeHeld :
    (d : Daemon) (dead : ℕ)
    → IsUnique (probes_running d.probes)
    → ProbesMapped d
    → ProbeHeld d (forget d dead).0
unfolding forget unload_probe
forget-ProbeHeld d dead u h = elim (Option-cases (take_address dead d.probes)) [
  | inl e ↦ rw (e, forget) (record { probes = h; others = refl })
  | inr ((p, rest), e) ↦
      let (t, _) = take_address-Taken dead d.probes p rest e in
      let (_, gone, _, within) = Taken-running p rest d.probes t u in
      rw (e, forget)
        (record {
          probes =
              close_handle-IsMapped p.id (probes_running d.probes) (probes_running rest)
                d.loader.probe_handles h within gone;
          others = refl;
        })
]

forget_all-ProbeHeld :
    (dead : List ℕ) (d : Daemon)
    → IsUnique (probes_running d.probes)
    → ProbesMapped d
    → ProbeHeld d (forget_all d dead).0
unfolding forget_all
forget_all-ProbeHeld [] d u h = record { probes = h; others = refl }
forget_all-ProbeHeld (x ∷ xs) d u h =
    let one = forget-ProbeHeld d x u h in
    let e = (forget d x).0 in
    let more = forget_all-ProbeHeld xs e (forget-Fewer d x u).unique one.probes in
    record { probes = more.probes; others = more.others ∙ one.others }

pub remove_probe-ProbeHeld :
    (m : Machine) (d : Daemon) (id : Bytes)
    → IsUnique (probes_running d.probes)
    → ProbesMapped d
    → ProbeHeld d (remove_probe m d id).0
unfolding remove_probe unload_probe
remove_probe-ProbeHeld m d id u h = elim (Option-cases (take_probe id d.probes)) [
  | inl e ↦ rw (e, remove_probe) (record { probes = h; others = refl })
  | inr ((p, rest), e) ↦
      let t = take_probe-Taken id d.probes p rest e in
      let (unique, gone, _, within) = Taken-running p rest d.probes t u in
      let its_id = take_probe-id id d.probes p rest e in
      let absent = ap (λ k. lookup k (probes_running rest)) (sym its_id) ∙ gone in
      let left : Daemon = record d {
        loop = (remove m.bpf d.loop p.probe).1;
        loader = (unload_probe d.loader id).0;
        probes = rest;
      } in
      let held =
        close_handle-IsMapped id (probes_running d.probes) (probes_running rest)
          d.loader.probe_handles h within absent in
      let more = forget_all-ProbeHeld (remove m.bpf d.loop p.probe).0 left unique held in
      rw (e, remove_probe) (record { probes = more.probes; others = more.others })
]

pub add_probe-ProbeHeld :
    (m : Machine) (d : Daemon) (id : Bytes) (config : ComponentConfig)
    → lookup id (probes_running d.probes) ≡ none
    → ProbesMapped d
    → ProbeHeld d (add_probe m d id config).0
unfolding add_probe unload_probe
add_probe-ProbeHeld m d id config fresh h =
    let l = load_probe m.linker d.loader id (plugin_of id config) config in
    let (without, with_one) =
      load_probe_handles m.linker d.loader id (plugin_of id config) config in
    let runs = probes_running d.probes in
    elim (Option-cases l.component) [
      | inl e ↦
          let same_loader = without e in
          rw (e, add_probe)
            (record {
              probes =
                  subst (λ (k : PluginLoader). IsMapped runs k.probe_handles) (sym same_loader) h;
              others = ap (λ (k : PluginLoader). k.sink_handles) same_loader;
            })
      | inr (c, e) ↦
          let (k, held) = with_one c e in
          let given_up =
            subst (λ (q : PluginLoader). IsMapped runs (close_handle q.probe_handles id).0)
              (sym held) (insert_close-IsMapped id k runs d.loader.probe_handles h fresh) in
          let others = ap (λ (q : PluginLoader). q.sink_handles) held in
          elim (Bool-cases (m.opens c config && m.loads c && m.attaches c)) [
            | inr u ↦ rw (e, u, add_probe) (record { probes = given_up; others = others })
            | inl u ↦ elim (Bool-cases (add m.bpf d.loop c m.new_emitter).0) [
              | inr v ↦ rw (e, u, v, add_probe) (record { probes = given_up; others = others })
              | inl v ↦
                  let p : LoadedProbe = record { id = id; probe = c; emitter = m.new_emitter } in
                  let grown =
                    subst (λ (q : PluginLoader). IsMapped (runs ++ (id, c) ∷ []) q.probe_handles)
                      (sym held) (insert-IsMapped id c k runs d.loader.probe_handles h) in
                  let list = probes_running-append d.probes (p ∷ []) in
                  rw (e, u, v, add_probe)
                    (record {
                      probes = subst (λ t. IsMapped t l.loader.probe_handles) (sym list) grown;
                      others = others;
                    })
            ]
          ]
    ]
