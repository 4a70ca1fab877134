-- ===== src/Daemon/Bound.antt =====
-- Which probes the event loop has a binding of, after its calls.
use mathlib.Core.Option.{some-injective}
use slurm_tracer.Common.{
  ℕ, ◌≡◌, ◌≢◌, ◌⊎◌, inl, inr, refl, subst, ◌∙◌, sym, List, [], ◌∷◌, ◌++◌, map, some, ◌==◌, ==_iff,
  Bool-cases, Option-cases,
}
use slurm_tracer.EventLoop.{Binding, EventLoop, Bpf, remove, erase_binding}
use slurm_tracer.EventLoop.Rearm.{Parted, kept, lost, remove-Parted}
use slurm_tracer.Daemon.Taken.{some_ne_none}

-- Some binding is of the probe at an address.
abbrev pub Bound : ℕ → List Binding → Type 0
Bound a [] = ⊥
Bound a (b ∷ bs) = (b.probe ≡ a) ⊎ Bound a bs

pub Bound-erase_binding :
    (a gone : ℕ) (bs cs : List Binding)
    → erase_binding gone bs ≡ some cs
    → a ≢ gone
    → Bound a bs
    → Bound a cs
unfolding erase_binding
Bound-erase_binding a gone [] cs h ne k = cc
Bound-erase_binding a gone (b ∷ bs) cs h ne k = elim (Bool-cases (b.probe == gone)) [
  | inl e ↦
      let found = some-injective bs cs (rw (e, erase_binding) at h) in
      elim k [
        | inl x ↦ absurd (ne (sym x ∙ (==_iff b.probe gone).0 e))
        | inr x ↦ subst (Bound a) found x
      ]
  | inr e ↦ elim (Option-cases (erase_binding gone bs)) [
    | inl f ↦ absurd (some_ne_none cs (rw (e, f, erase_binding) at h))
    | inr (ds, f) ↦
        let found = some-injective (b ∷ ds) cs (rw (e, f, erase_binding) at h) in
        subst (Bound a) found
          (elim k [ inl x ↦ inl x | inr x ↦ inr (Bound-erase_binding a gone bs ds f ne x) ])
  ]
]

abbrev pub In : ℕ → List ℕ → Type 0
In a [] = ⊥
In a (x ∷ xs) = (x ≡ a) ⊎ In a xs

pub Bound-Parted :
    (a : ℕ) (ks ls bs : List Binding)
    → Parted ks ls bs
    → Bound a bs
    → Bound a ks ⊎ In a (map (λ b. b.probe) ls)
Bound-Parted a ks ls [] p h = absurd h
Bound-Parted a (k ∷ ks) ls (b ∷ bs) (kept p) (inl h) = inl (inl h)
Bound-Parted a (k ∷ ks) ls (b ∷ bs) (kept p) (inr h) = elim (Bound-Parted a ks ls bs p h) [
  | inl x ↦ inl (inr x)
  | inr x ↦ inr x
]
Bound-Parted a ks (l ∷ ls) (b ∷ bs) (lost p) (inl h) = inr (inl h)
Bound-Parted a ks (l ∷ ls) (b ∷ bs) (lost p) (inr h) = elim (Bound-Parted a ks ls bs p h) [
  | inl x ↦ inl x
  | inr x ↦ inr (inr x)
]

-- What a removal of a probe from the loop leaves of another one: its binding, or its name among those
-- that are dropped besides.
pub remove-Bound :
    (bpf : Bpf) (loop : EventLoop) (gone a : ℕ)
    → Bound a loop.bindings
    → a ≢ gone
    → Bound a (remove bpf loop gone).1.bindings ⊎ In a (remove bpf loop gone).0
unfolding remove
remove-Bound bpf loop gone a h ne = elim (Option-cases (erase_binding gone loop.bindings)) [
  | inl e ↦ rw (e, remove) (inl h)
  | inr (bs, e) ↦
      let (ls, p, d) = remove-Parted bpf loop gone bs e in
      let left = Bound-erase_binding a gone loop.bindings bs e ne h in
      let after = (remove bpf loop gone).1.bindings in
      elim (Bound-Parted a after ls bs p left) [
        | inl x ↦ inl x
        | inr x ↦ inr (subst (In a) (sym d) x)
      ]
]

pub Bound-append : (a : ℕ) (bs : List Binding) (b : Binding) → Bound a bs → Bound a (bs ++ b ∷ [])
Bound-append a [] b h = absurd h
Bound-append a (c ∷ bs) b (inl h) = inl h
Bound-append a (c ∷ bs) b (inr h) = inr (Bound-append a bs b h)

pub Bound-last : (bs : List Binding) (b : Binding) → Bound b.probe (bs ++ b ∷ [])
Bound-last [] b = inl refl
Bound-last (c ∷ bs) b = inr (Bound-last bs b)
