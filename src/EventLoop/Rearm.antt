-- ===== src/EventLoop/Rearm.antt =====
-- What the ring buffer polls is what the loop has bound, after every call.
use slurm_tracer.Common.{
  ◌↔◌, ℕ, ◌≡◌, ◌≢◌, refl, ap, ◌∙◌, sym, inl, inr, true, List, [], ◌∷◌, ◌++◌, append_assoc,
  append-nil, map, Option, none, some, arith, Bool-cases, Option-cases,
}
use slurm_tracer.EventLoop.{
  Binding, EventLoop, new_loop, Bpf, contexts, with_context, add, erase_binding, rearm, remove,
}

-- The ring buffer for given bindings: none for no binding.
abbrev pub ring_of : List Binding → Option (List Binding)
ring_of [] = none
ring_of (b ∷ bs) = some (b ∷ bs)

contexts-ring_of : (bs : List Binding) → contexts (ring_of bs) ≡ bs
contexts-ring_of [] = refl
contexts-ring_of (b ∷ bs) = refl

ring_of_snoc :
    (bs : List Binding) (b : Binding) → with_context (ring_of bs) b ≡ ring_of (bs ++ b ∷ [])
ring_of_snoc [] b = refl
ring_of_snoc (c ∷ bs) b = refl

ring_of-snoc :
    (rb : Option (List Binding)) (bs : List Binding) (b : Binding)
    → rb ≡ ring_of bs
    → with_context rb b ≡ ring_of (bs ++ b ∷ [])
ring_of-snoc rb bs b h = ap (λ x. with_context x b) h ∙ ring_of_snoc bs b

-- Every binding is armed, in order, and nothing else is; and there is a ring buffer only if it has one.
abbrev pub IsArmed : EventLoop → Type 0
IsArmed loop = loop.rb ≡ ring_of loop.bindings

add-IsArmed :
    (bpf : Bpf) (loop : EventLoop) (probe out : ℕ)
    → IsArmed loop
    → IsArmed (add bpf loop probe out).1
unfolding add
add-IsArmed bpf loop probe out h = elim (Option-cases (bpf.ring_fd probe)) [
  | inl e ↦ rw (e, add) h
  | inr (fd, e) ↦ elim (Bool-cases (bpf.arms loop.rb (some fd))) [
    | inl a ↦
        rw (e, a, add) (ring_of-snoc loop.rb loop.bindings (record { probe = probe; out = out }) h)
    | inr a ↦ rw (e, a, add) h
  ]
]

rearm_lem :
    (bpf : Bpf) (rb : Option (List Binding)) (before bs : List Binding)
    → rb ≡ ring_of before
    → (rearm bpf rb bs).rb ≡ ring_of (before ++ (rearm bpf rb bs).surviving)
unfolding rearm
rearm_lem bpf rb before [] h = h ∙ ap ring_of (sym (append-nil before))
rearm_lem bpf rb before (b ∷ bs) h = elim (Bool-cases (bpf.arms rb (bpf.ring_fd b.probe))) [
  | inl a ↦
      let next = with_context rb b in
      let ih = rearm_lem bpf next (before ++ b ∷ []) bs (ring_of-snoc rb before b h) in
      let regroup = append_assoc before (b ∷ []) (rearm bpf next bs).surviving in
      rw (a, rearm) (ih ∙ ap ring_of regroup)
  | inr a ↦ rw (a, rearm) (rearm_lem bpf rb before bs h)
]

-- The bindings that are kept and the ones that are lost, each in order, make up the whole.
pub data Parted : List Binding → List Binding → List Binding → Type 0 where
  none_left : Parted [] [] []
  kept : {b : Binding} {ks ls bs : List Binding} → Parted ks ls bs → Parted (b ∷ ks) ls (b ∷ bs)
  lost : {b : Binding} {ks ls bs : List Binding} → Parted ks ls bs → Parted ks (b ∷ ls) (b ∷ bs)

rearm-Parted :
    (bpf : Bpf) (rb : Option (List Binding)) (bs : List Binding)
    → (ls : List Binding) × Parted (rearm bpf rb bs).surviving ls bs
      × ((rearm bpf rb bs).dropped ≡ map (λ b. b.probe) ls)
unfolding rearm
rearm-Parted bpf rb [] = ([], none_left, refl)
rearm-Parted bpf rb (b ∷ bs) = elim (Bool-cases (bpf.arms rb (bpf.ring_fd b.probe))) [
  | inl a ↦
      let (ls, p, e) = rearm-Parted bpf (with_context rb b) bs in rw (a, rearm) (ls, kept p, e)
  | inr a ↦
      let (ls, p, e) = rearm-Parted bpf rb bs in
      rw (a, rearm) (b ∷ ls, lost p, ap (λ d. b.probe ∷ d) e)
]

remove-IsArmed :
    (bpf : Bpf) (loop : EventLoop) (probe : ℕ) → IsArmed loop → IsArmed (remove bpf loop probe).1
unfolding remove
remove-IsArmed bpf loop probe h = elim (Option-cases (erase_binding probe loop.bindings)) [
  | inl e ↦ rw (e, remove) h
  | inr (bs, e) ↦ rw (e, remove) (rearm_lem bpf none [] bs refl)
]

pub data Call : Type 0 where
  adds : Bpf → ℕ → ℕ → Call
  removes : Bpf → ℕ → Call

unfoldable pub run : EventLoop → List Call → EventLoop
run loop [] = loop
run loop (adds bpf probe out ∷ cs) = run (add bpf loop probe out).1 cs
run loop (removes bpf probe ∷ cs) = run (remove bpf loop probe).1 cs

run-IsArmed_from : (loop : EventLoop) (cs : List Call) → IsArmed loop → IsArmed (run loop cs)
unfolding run
run-IsArmed_from loop [] h = h
run-IsArmed_from loop (adds bpf probe out ∷ cs) h =
    run-IsArmed_from (add bpf loop probe out).1 cs (add-IsArmed bpf loop probe out h)
run-IsArmed_from loop (removes bpf probe ∷ cs) h =
    run-IsArmed_from (remove bpf loop probe).1 cs (remove-IsArmed bpf loop probe h)

-- After any calls, whichever of them libbpf refuses: the ring buffer calls back for exactly the bindings
-- that the loop lists, in their order, and there is no ring buffer when there is no binding. No probe is
-- listed that is not polled.
pub run-IsArmed : (cs : List Call) → IsArmed (run new_loop cs)
run-IsArmed cs = run-IsArmed_from new_loop cs refl

-- A removal of a bound probe accounts for every other binding: each is kept, in its order, or is lost to
-- a refusal, and the probes reported as dropped are those of the lost ones, in order.
pub remove-Parted :
    (bpf : Bpf) (loop : EventLoop) (probe : ℕ) (bs : List Binding)
    → erase_binding probe loop.bindings ≡ some bs
    → (ls : List Binding) × Parted (remove bpf loop probe).1.bindings ls bs
      × ((remove bpf loop probe).0 ≡ map (λ b. b.probe) ls)
unfolding remove
remove-Parted bpf loop probe bs e = rw (e, remove) (rearm-Parted bpf none bs)

rearm_all :
    (bpf : Bpf) (rb : Option (List Binding)) (bs : List Binding)
    → ((rb : Option (List Binding)) (fd : Option ℕ) → bpf.arms rb fd ≡ true)
    → ((rearm bpf rb bs).surviving ≡ bs) × ((rearm bpf rb bs).dropped ≡ [])
unfolding rearm
rearm_all bpf rb [] h = (refl, refl)
rearm_all bpf rb (b ∷ bs) h =
    let (s, d) = rearm_all bpf (with_context rb b) bs h in
    rw (h rb (bpf.ring_fd b.probe), rearm) (ap (λ x. b ∷ x) s, d)

erase_binding-eq-none_iff :
    (probe : ℕ) (b : Binding) (bs : List Binding)
    → erase_binding probe (b ∷ bs) ≡ none ↔ ((b.probe ≢ probe) × (erase_binding probe bs ≡ none))
unfolding erase_binding
erase_binding-eq-none_iff probe b bs = elim (Option-cases (erase_binding probe bs)) [
  | inl e ↦ ground arith
  | inr (cs, e) ↦ ground arith
]

erase_binding-Parted :
    (probe : ℕ) (ks ls bs : List Binding)
    → Parted ks ls bs
    → erase_binding probe bs ≡ none
    → erase_binding probe ks ≡ none
unfolding erase_binding
erase_binding-Parted probe [] ls bs p h = refl
erase_binding-Parted probe (b ∷ ks) ls [] p h = elim p [ ]
erase_binding-Parted probe (b ∷ ks) ls (c ∷ bs) (kept p) h =
    let (ne, rest) = (erase_binding-eq-none_iff probe c bs).0 h in
    (erase_binding-eq-none_iff probe b ks).1 (ne, erase_binding-Parted probe ks ls bs p rest)
erase_binding-Parted probe (a ∷ ks) (b ∷ ls) (c ∷ bs) (lost p) h =
    erase_binding-Parted probe (a ∷ ks) ls bs p ((erase_binding-eq-none_iff probe c bs).0 h).1

-- A probe that is bound once is gone from the ring buffer after its removal, whatever libbpf refuses; and
-- where it refuses nothing, every other binding stays and none is dropped.
pub remove_lem :
    (bpf : Bpf) (loop : EventLoop) (probe : ℕ) (bs : List Binding)
    → erase_binding probe loop.bindings ≡ some bs
    → erase_binding probe bs ≡ none
    → (erase_binding probe (contexts (remove bpf loop probe).1.rb) ≡ none)
      × (((rb : Option (List Binding)) (fd : Option ℕ) → bpf.arms rb fd ≡ true)
          → ((remove bpf loop probe).1.bindings ≡ bs) × ((remove bpf loop probe).0 ≡ []))
unfolding remove
remove_lem bpf loop probe bs e once =
    let (ls, p, d) = rearm-Parted bpf none bs in
    let same_ring = rearm_lem bpf none [] bs refl in
    rw (e, remove)
      (
        ap (λ r. erase_binding probe (contexts r)) same_ring
            ∙ ap (erase_binding probe) (contexts-ring_of (rearm bpf none bs).surviving)
            ∙ erase_binding-Parted probe _ ls bs p once,
        rearm_all bpf none bs,
      )
