-- ===== src/Daemon/Taken.antt =====
-- What `find_if` with `erase` leaves of the list of probes.
use mathlib.Core.Option.{some-injective}
use slurm_tracer.Common.{
  ℕ, ◌≡◌, ◌≢◌, inl, inr, subst, sym, List, [], ◌∷◌, ◌++◌, none, some, arith, ◌==◌, ==_iff,
  Bool-cases, Option-cases, All, All-append,
}
use slurm_tracer.Text.{Bytes, same}
use slurm_tracer.Daemon.{LoadedProbe, take_probe, take_address}

-- A list without its first element of some kind.
pub data Taken (p : LoadedProbe) : List LoadedProbe → List LoadedProbe → Type 0 where
  first : {qs : List LoadedProbe} → Taken p qs (p ∷ qs)
  later :
      {q : LoadedProbe} {rest qs : List LoadedProbe} → Taken p rest qs → Taken p (q ∷ rest) (q ∷ qs)

pub some_ne_none {ℓ} : {A : Type ℓ} (a : A) → none ≢ some a
some_ne_none a h = cc

pub take_probe-Taken :
    (id : Bytes) (qs : List LoadedProbe) (p : LoadedProbe) (rest : List LoadedProbe)
    → take_probe id qs ≡ some (p, rest)
    → Taken p rest qs
unfolding take_probe
take_probe-Taken id [] p rest h = cc
take_probe-Taken id (q ∷ qs) p rest h = elim (Bool-cases (same q.id id)) [
  | inl e ↦
      let found = some-injective (q, qs) (p, rest) (rw (e, take_probe) at h) in
      subst (λ x. Taken x.0 x.1 (q ∷ qs)) found first
  | inr e ↦ elim (Option-cases (take_probe id qs)) [
    | inl f ↦ absurd (some_ne_none (p, rest) (rw (e, f, take_probe) at h))
    | inr ((r, rs), f) ↦
        let found = some-injective (r, q ∷ rs) (p, rest) (rw (e, f, take_probe) at h) in
        subst (λ x. Taken x.0 x.1 (q ∷ qs)) found (later (take_probe-Taken id qs r rs f))
  ]
]

pub take_address-Taken :
    (a : ℕ) (qs : List LoadedProbe) (p : LoadedProbe) (rest : List LoadedProbe)
    → take_address a qs ≡ some (p, rest)
    → Taken p rest qs × (p.probe ≡ a)
unfolding take_address
take_address-Taken a [] p rest h = cc
take_address-Taken a (q ∷ qs) p rest h = elim (Bool-cases (q.probe == a)) [
  | inl e ↦
      let found = some-injective (q, qs) (p, rest) (rw (e, take_address) at h) in
      subst (λ x. Taken x.0 x.1 (q ∷ qs) × (x.0.probe ≡ a)) found (first, (==_iff q.probe a).0 e)
  | inr e ↦ elim (Option-cases (take_address a qs)) [
    | inl f ↦ absurd (some_ne_none (p, rest) (rw (e, f, take_address) at h))
    | inr ((r, rs), f) ↦
        let found = some-injective (r, q ∷ rs) (p, rest) (rw (e, f, take_address) at h) in
        let (t, at) = take_address-Taken a qs r rs f in
        subst (λ x. Taken x.0 x.1 (q ∷ qs) × (x.0.probe ≡ a)) found (later t, at)
  ]
]

pub take_address-eq-none :
    (a : ℕ) (qs : List LoadedProbe) → take_address a qs ≡ none → All (λ q. q.probe ≢ a) qs
unfolding take_address
take_address-eq-none a [] h = tt
take_address-eq-none a (q ∷ qs) h = elim (Option-cases (take_address a qs)) [
  | inl e ↦ (ground arith, take_address-eq-none a qs e)
  | inr (r, e) ↦ absurd (ground arith)
]

module _ (P : LoadedProbe → Type 0) where
  pub All-Taken :
      (p : LoadedProbe) (rest qs : List LoadedProbe) → Taken p rest qs → All P qs → P p × All P rest
  All-Taken p rest [] t h = elim t [ ]
  All-Taken p rest (q ∷ qs) first h = h
  All-Taken p (r ∷ rest) (q ∷ qs) (later t) h =
      let (at, others) = All-Taken p rest qs t h.1 in (at, (h.0, others))

-- Two probes of the daemon have two addresses.
abbrev pub IsDistinct : List LoadedProbe → Type 0
IsDistinct [] = Unit
IsDistinct (q ∷ qs) = All (λ r. r.probe ≢ q.probe) qs × IsDistinct qs

pub Taken-IsDistinct :
    (p : LoadedProbe) (rest qs : List LoadedProbe)
    → Taken p rest qs
    → IsDistinct qs
    → IsDistinct rest × All (λ q. q.probe ≢ p.probe) rest
Taken-IsDistinct p rest [] t h = elim t [ ]
Taken-IsDistinct p rest (q ∷ qs) first h = (h.1, h.0)
Taken-IsDistinct p (r ∷ rest) (q ∷ qs) (later t) h =
    let (apart, others) = All-Taken (λ r. r.probe ≢ q.probe) p rest qs t h.0 in
    let (left, away) = Taken-IsDistinct p rest qs t h.1 in
    ((others, left), ((λ e. apart (sym e)), away))

pub IsDistinct-snoc :
    (qs : List LoadedProbe) (p : LoadedProbe)
    → IsDistinct qs
    → All (λ q. q.probe ≢ p.probe) qs
    → IsDistinct (qs ++ p ∷ [])
IsDistinct-snoc [] p h k = (tt, tt)
IsDistinct-snoc (q ∷ qs) p h k = (
  All-append (λ r. r.probe ≢ q.probe) qs (p ∷ []) h.0 ((λ e. k.0 (sym e)), tt),
  IsDistinct-snoc qs p h.1 k.1,
)
