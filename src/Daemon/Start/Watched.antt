-- ===== src/Daemon/Start/Watched.antt =====
-- The watcher's skeleton through the start.
use slurm_tracer.Common.{
  ◌≡◌, refl, sym, ap, ◌∙◌, inl, inr, List, ◌++◌, map, Option, none, some, false, Bool-cases, ℕ,
}
use slurm_tracer.EventLoop.{add}
use slurm_tracer.BpfProbe.{Ops, OpCall, BpfProbe, new_probe, open_skeleton, load, attach, detach}
use slurm_tracer.BpfProbe.Protocol.{
  protocol, protocol-append, open_skeleton_lem, load_lem, attach_lem, detach_lem,
}
use slurm_tracer.Daemon.{Daemon, operated, detached, detach_watcher, destruct}
use slurm_tracer.Daemon.Start.{Startup, bring_up, start_cgroup_watcher}

bring_up_lem :
    (ops : Ops)
    → protocol none (bring_up ops new_probe).calls ≡ some (bring_up ops new_probe).probe.skel
unfolding bring_up
bring_up_lem ops =
    let o = open_skeleton ops new_probe in
    let l = load ops o.probe in
    let a = attach ops l.probe in
    let opens = open_skeleton_lem ops new_probe refl in
    elim (Bool-cases o.ok) [
      | inr e ↦ rw (e, bring_up) opens
      | inl e ↦ elim (Bool-cases l.ok) [
        | inr f ↦
            rw (e, f, bring_up)
              (protocol-append none o.probe.skel o.calls l.calls opens ∙ load_lem ops o.probe)
        | inl f ↦
            rw (e, f, bring_up)
              (protocol-append none o.probe.skel o.calls (l.calls ++ a.calls) opens
                ∙ protocol-append o.probe.skel l.probe.skel l.calls a.calls (load_lem ops o.probe)
                ∙ attach_lem ops l.probe)
      ]
    ]

abbrev held : Option BpfProbe → Option ℕ
held none = none
held (some w) = w.skel

detach_watcher_lem : (o : Option BpfProbe) → protocol (held o) (detach_watcher o).1 ≡ some none
unfolding protocol
detach_watcher_lem none = refl
detach_watcher_lem (some w) = (detach_lem w).0

-- The skeleton that is open is the one that the daemon holds, and its destructor closes that.
abbrev pub Closes : Daemon → List OpCall → Type 0
Closes d calls =
    (protocol none calls ≡ some (held d.cgroup_watcher))
    × ((ends : List OpCall) × ((destruct d).1
          ≡ map operated ends ++ map (λ p. detached p.probe) d.probes)
        × (protocol none (calls ++ ends) ≡ some none))

closing :
    (d : Daemon) (calls : List OpCall)
    → protocol none calls ≡ some (held d.cgroup_watcher)
    → Closes d calls
unfolding destruct
closing d calls h = (
  h,
  (
    (detach_watcher d.cgroup_watcher).1,
    refl,
    protocol-append none (held d.cgroup_watcher) calls (detach_watcher d.cgroup_watcher).1 h
        ∙ detach_watcher_lem d.cgroup_watcher,
  ),
)

-- Starting the watcher keeps to libbpf's protocol: its calls leave open the skeleton of the watcher that the
-- daemon then holds. Where opening, loading or attaching fails, or its binding to the event loop, the daemon
-- holds no watcher, and no skeleton is left open. In any case the destructor of the daemon, after them, leaves
-- none open.
pub start_cgroup_watcher-Closes :
    (s : Startup) (d : Daemon)
    → let st = start_cgroup_watcher s d in
      (calls : List OpCall) × (st.calls ≡ map operated calls)
      × Closes st.daemon calls
      × (st.ok ≡ false → st.daemon.cgroup_watcher ≡ none)
unfolding start_cgroup_watcher
start_cgroup_watcher-Closes s d =
    let up = bring_up s.ops new_probe in
    let so_far = bring_up_lem s.ops in
    let (gone, closed) = detach up.probe in
    let (closes, left) = detach_lem up.probe in
    let lost : Daemon = record d { cgroup_watcher = none } in
    let (armed, loop) = add s.bpf d.loop s.watcher s.pipeline in
    elim (Bool-cases up.ok) [
      | inr e ↦
          let ends = protocol-append none up.probe.skel up.calls closed so_far ∙ closes in
          rw (e, start_cgroup_watcher)
            (up.calls ++ closed, refl, closing lost (up.calls ++ closed) ends, λ h. refl)
      | inl e ↦ elim (Bool-cases armed) [
        | inr f ↦
            let again : protocol none (detach gone).1 ≡ some none =
              ap (λ o. protocol o (detach gone).1) (sym left) ∙ (detach_lem gone).0 in
            let calls = up.calls ++ (closed ++ (detach gone).1) in
            let ends =
              protocol-append none up.probe.skel up.calls (closed ++ (detach gone).1) so_far
              ∙ protocol-append up.probe.skel none closed (detach gone).1 closes
              ∙ again in
            rw (e, f, start_cgroup_watcher)
              (calls, refl, closing (record lost { loop = loop }) calls ends, λ h. refl)
        | inl f ↦
            let holds : Daemon = record d { cgroup_watcher = some up.probe; loop = loop } in
            rw (e, f, start_cgroup_watcher) (up.calls, refl, closing holds up.calls so_far, λ h. cc)
      ]
    ]
