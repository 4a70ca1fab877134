-- ===== src/Dict/Retain.antt =====
-- The keys stand in strictly increasing order, so that each stands once, and what stays after entries
-- are erased.
use slurm_tracer.Common.{
  ◌≡◌, refl, Bool, true, false, [], ◌∷◌, Option, none, some, arith, if◌then◌else◌,
}
use slurm_tracer.Dict.{Key, Dict, lookup, insert, retain, erase}

abbrev pub keep_if : {V : Type 0} → (V → Bool) → Option V → Option V
keep_if p none = none
keep_if p (some v) = if p v then some v else none

module _ {K : Type 0} {V : Type 0} ⦃o : Key K⦄ where
  abbrev pub Above : K → Dict K V → Type 0
  Above k [] = Unit
  Above k ((j, v) ∷ m) = (o.less k j ≡ true) × Above k m

  abbrev pub IsSorted : Dict K V → Type 0
  IsSorted [] = Unit
  IsSorted ((k, v) ∷ m) = Above k m × IsSorted m

  Above-mono : (a b : K) (m : Dict K V) → o.less a b ≡ true → Above b m → Above a m
  Above-mono a b [] h k = tt
  Above-mono a b ((j, v) ∷ m) h k = (o.less_trans a b j h k.0, Above-mono a b m h k.1)

  insert-Above :
      (a k : K) (v : V) (m : Dict K V) → o.less a k ≡ true → Above a m → Above a (insert k v m)
  unfolding insert
  insert-Above a k v [] h s = (h, tt)
  insert-Above a k v ((j, w) ∷ m) h s = ground (arith, insert-Above a k v m h s.1)

  pub insert-IsSorted : (k : K) (v : V) (m : Dict K V) → IsSorted m → IsSorted (insert k v m)
  unfolding insert
  insert-IsSorted k v [] s = (tt, tt)
  insert-IsSorted k v ((j, w) ∷ m) s = ground (
    arith,
    insert-IsSorted k v m s.1,
    o.less_total k j,
    o.less_total j k,
    o.eq_iff j k,
    o.eq_iff k j,
    Above-mono k j m,
    insert-Above j k v m,
  )

  retain-Above : (p : K → V → Bool) (a : K) (m : Dict K V) → Above a m → Above a (retain p m)
  unfolding retain
  retain-Above p a [] s = tt
  retain-Above p a ((j, w) ∷ m) s = ground (arith, retain-Above p a m s.1)

  pub retain-IsSorted : (p : K → V → Bool) (m : Dict K V) → IsSorted m → IsSorted (retain p m)
  unfolding retain
  retain-IsSorted p [] s = tt
  retain-IsSorted p ((j, w) ∷ m) s = ground (arith, retain-IsSorted p m s.1, retain-Above p j m s.0)

  pub lookup-Above : (k : K) (m : Dict K V) → Above k m → lookup k m ≡ none
  unfolding lookup
  lookup-Above k [] s = refl
  lookup-Above k ((j, w) ∷ m) s =
      ground (arith, o.eq_iff j k, o.less_irrefl k, lookup-Above k m s.1)

  pub lookup-retain :
      (p : K → V → Bool) (k : K) (m : Dict K V)
      → IsSorted m
      → lookup k (retain p m) ≡ keep_if (p k) (lookup k m)
  unfolding lookup retain
  lookup-retain p k [] s = refl
  lookup-retain p k ((j, w) ∷ m) s =
      ground (arith, o.eq_iff j k, lookup-retain p k m s.1, lookup-Above j m s.0)

  pub lookup-erase_self : (k : K) (m : Dict K V) → IsSorted m → lookup k (erase k m) ≡ none
  unfolding lookup erase
  lookup-erase_self k [] s = refl
  lookup-erase_self k ((j, w) ∷ m) s =
      ground (arith, o.eq_iff j k, lookup-erase_self k m s.1, lookup-Above j m s.0)

  pub lookup-erase_ne :
      (k j : K) (m : Dict K V) → o.eq k j ≡ false → lookup j (erase k m) ≡ lookup j m
  unfolding lookup erase
  lookup-erase_ne k j [] h = refl
  lookup-erase_ne k j ((i, w) ∷ m) h =
      ground (arith, o.eq_iff i k, o.eq_iff i j, o.eq_iff k j, lookup-erase_ne k j m h)

  erase-Above : (a k : K) (m : Dict K V) → Above a m → Above a (erase k m)
  unfolding erase
  erase-Above a k [] s = tt
  erase-Above a k ((j, w) ∷ m) s = ground (arith, erase-Above a k m s.1)

  pub erase-IsSorted : (k : K) (m : Dict K V) → IsSorted m → IsSorted (erase k m)
  unfolding erase
  erase-IsSorted k [] s = tt
  erase-IsSorted k ((j, w) ∷ m) s = ground (arith, erase-IsSorted k m s.1, erase-Above j k m s.0)
