-- ===== src/Daemon/Polled.antt =====
-- No probe that the daemon keeps is left without its ring buffer.
use slurm_tracer.Common.{
  ℕ, ◌≡◌, ◌≢◌, ◌⊎◌, inl, inr, refl, subst, sym, ◌&&◌, List, [], ◌∷◌, ◌++◌, none, some, Bool-cases,
  Option-cases, All, All-append,
}
use slurm_tracer.Text.{Bytes}
use slurm_tracer.Config.{ComponentConfig, plugin_of}
use slurm_tracer.PluginLoader.{load_probe}
use slurm_tracer.EventLoop.{Binding, EventLoop, add, remove}
use slurm_tracer.Daemon.{
  LoadedProbe, Daemon, Machine, take_probe, take_address, forget, forget_all, remove_probe,
  add_probe,
}
use slurm_tracer.Daemon.Taken.{
  take_probe-Taken, take_address-Taken, take_address-eq-none, All-Taken, IsDistinct,
  Taken-IsDistinct, IsDistinct-snoc,
}
use slurm_tracer.Daemon.Bound.{Bound, In, remove-Bound, Bound-append, Bound-last}

All-both :
    (P Q R : LoadedProbe → Type 0) (qs : List LoadedProbe)
    → ((q : LoadedProbe) → P q → Q q → R q)
    → All P qs
    → All Q qs
    → All R qs
All-both P Q R [] f h k = tt
All-both P Q R (q ∷ qs) f h k = (f q h.0 k.0, All-both P Q R qs f h.1 k.1)

still_or :
    (B : LoadedProbe → Type 0) (dead : ℕ) (more : List ℕ) (q : LoadedProbe)
    → B q ⊎ In q.probe (dead ∷ more)
    → q.probe ≢ dead
    → B q ⊎ In q.probe more
still_or B dead more q (inl h) ne = inl h
still_or B dead more q (inr (inl h)) ne = absurd (ne (sym h))
still_or B dead more q (inr (inr h)) ne = inr h

-- The probes are distinct, and each is as it should be or is yet to be forgotten.
record Forgets (B : LoadedProbe → Type 0) (dead : List ℕ) (loop : EventLoop) (d : Daemon)
    : Type 0 where
  distinct : IsDistinct d.probes
  each : All (λ q. B q ⊎ In q.probe dead) d.probes
  same_loop : d.loop ≡ loop

forget-Forgets :
    (B : LoadedProbe → Type 0) (dead : ℕ) (more : List ℕ) (loop : EventLoop) (d : Daemon)
    → Forgets B (dead ∷ more) loop d
    → Forgets B more loop (forget d dead).0
unfolding forget
forget-Forgets B dead more loop d h =
    let P = λ (q : LoadedProbe). B q ⊎ In q.probe (dead ∷ more) in
    let R = λ (q : LoadedProbe). B q ⊎ In q.probe more in
    elim (Option-cases (take_address dead d.probes)) [
      | inl e ↦
          rw (e, forget)
            (record {
              distinct = h.distinct;
              each =
                  All-both P (λ q. q.probe ≢ dead) R d.probes (still_or B dead more) h.each
                    (take_address-eq-none dead d.probes e);
              same_loop = h.same_loop;
            })
      | inr ((p, rest), e) ↦
          let (t, at) = take_address-Taken dead d.probes p rest e in
          let (left, away) = Taken-IsDistinct p rest d.probes t h.distinct in
          rw (e, forget)
            (record {
              distinct = left;
              each =
                  All-both P (λ q. q.probe ≢ dead) R rest (still_or B dead more)
                    (All-Taken P p rest d.probes t h.each).1
                    (subst (λ a. All (λ q. q.probe ≢ a) rest) at away);
              same_loop = h.same_loop;
            })
    ]

forget_all-Forgets :
    (B : LoadedProbe → Type 0) (dead : List ℕ) (loop : EventLoop) (d : Daemon)
    → Forgets B dead loop d
    → Forgets B [] loop (forget_all d dead).0
unfolding forget_all
forget_all-Forgets B [] loop d h = h
forget_all-Forgets B (x ∷ xs) loop d h =
    forget_all-Forgets B xs loop (forget d x).0 (forget-Forgets B x xs loop d h)

-- The daemon's probes have distinct addresses, and the event loop has a binding of each.
pub record IsPolled (d : Daemon) : Type 0 where
  pub distinct : IsDistinct d.probes
  pub bound : All (λ q. Bound q.probe d.loop.bindings) d.probes

Forgets-IsPolled :
    (loop : EventLoop) (d : Daemon)
    → Forgets (λ q. Bound q.probe loop.bindings) [] loop d
    → IsPolled d
Forgets-IsPolled loop d h =
    let B = λ (q : LoadedProbe). Bound q.probe loop.bindings in
    let P = λ (q : LoadedProbe). B q ⊎ In q.probe [] in
    let here =
      All-both P P B d.probes (λ q x _. elim x [ inl y ↦ y | inr y ↦ absurd y ]) h.each h.each in
    record {
      distinct = h.distinct;
      bound = subst (λ l. All (λ q. Bound q.probe l.bindings) d.probes) (sym h.same_loop) here;
    }

-- If the event loop has a binding of every probe of the daemon, and their addresses are distinct, the
-- same holds after one of them is removed, whatever libbpf refuses while the ring buffer is built
-- anew: none is kept that gets no events.
pub remove_probe-IsPolled :
    (m : Machine) (d : Daemon) (id : Bytes) → IsPolled d → IsPolled (remove_probe m d id).0
unfolding remove_probe
remove_probe-IsPolled m d id h = elim (Option-cases (take_probe id d.probes)) [
  | inl e ↦ rw (e, remove_probe) h
  | inr ((p, rest), e) ↦
      let t = take_probe-Taken id d.probes p rest e in
      let (left, away) = Taken-IsDistinct p rest d.probes t h.distinct in
      let out = remove m.bpf d.loop p.probe in
      let B = λ (q : LoadedProbe). Bound q.probe out.1.bindings in
      let old = λ (q : LoadedProbe). Bound q.probe d.loop.bindings in
      let each =
        All-both old (λ q. q.probe ≢ p.probe) (λ q. B q ⊎ In q.probe out.0) rest
          (λ q. remove-Bound m.bpf d.loop p.probe q.probe)
          (All-Taken old p rest d.probes t h.bound).1 away in
      rw (e, remove_probe)
        (Forgets-IsPolled out.1 _ (
          forget_all-Forgets B out.0 out.1 _
            (record { distinct = left; each = each; same_loop = refl })))
]

-- If the event loop has a binding of every probe of the daemon, and their addresses are distinct, the
-- same holds after one is added that has a descriptor and a new address, whether or not it loads,
-- opens, attaches and is armed.
pub add_probe-IsPolled :
    (m : Machine) (d : Daemon) (id : Bytes) (config : ComponentConfig)
    → IsPolled d
    → ((c : ℕ)
        → (load_probe m.linker d.loader id (plugin_of id config) config).component ≡ some c
        → (m.bpf.ring_fd c ≢ none) × All (λ q. q.probe ≢ c) d.probes)
    → IsPolled (add_probe m d id config).0
unfolding add_probe add
add_probe-IsPolled m d id config h fresh =
    let l = load_probe m.linker d.loader id (plugin_of id config) config in
    elim (Option-cases l.component) [
      | inl e ↦ rw (e, add_probe) (record { distinct = h.distinct; bound = h.bound })
      | inr (c, e) ↦
          let (polls, away) = fresh c e in
          elim (Bool-cases (m.opens c config && m.loads c && m.attaches c)) [
            | inr u ↦ rw (e, u, add_probe) (record { distinct = h.distinct; bound = h.bound })
            | inl u ↦ elim (Option-cases (m.bpf.ring_fd c)) [
              | inl f ↦ absurd (polls f)
              | inr (fd, f) ↦ elim (Bool-cases (m.bpf.arms d.loop.rb (some fd))) [
                | inr v ↦
                    rw (e, u, f, v, add_probe, add)
                      (record { distinct = h.distinct; bound = h.bound })
                | inl v ↦
                    let b : Binding = record { probe = c; out = m.new_emitter } in
                    let p : LoadedProbe = record { id = id; probe = c; emitter = m.new_emitter } in
                    let old = λ (q : LoadedProbe). Bound q.probe d.loop.bindings in
                    let now = λ (q : LoadedProbe). Bound q.probe (d.loop.bindings ++ b ∷ []) in
                    let still =
                      All-both old old now d.probes
                        (λ q x _. Bound-append q.probe d.loop.bindings b x) h.bound h.bound in
                    rw (e, u, f, v, add_probe, add)
                      (record {
                        distinct = IsDistinct-snoc d.probes p h.distinct away;
                        bound =
                            All-append now d.probes (p ∷ []) still
                              (Bound-last d.loop.bindings b, tt);
                      })
              ]
            ]
          ]
    ]
