-- ===== src/Dict/Laws.antt =====
-- What a lookup finds after each operation.
use slurm_tracer.Common.{◌≡◌, refl, true, false, [], ◌∷◌, none, some, arith, if◌then◌else◌}
use slurm_tracer.Dict.{Key, Dict, lookup, insert, emplace}

pub eq_refl : {K : Type 0} ⦃o : Key K⦄ → (a : K) → o.eq a a ≡ true
eq_refl ⦃o⦄ a = (o.eq_iff a a).1 refl

module _ {K : Type 0} {V : Type 0} ⦃o : Key K⦄ where
  pub lookup-insert :
      (k j : K) (v : V) (m : Dict K V)
      → lookup j (insert k v m) ≡ (if o.eq k j then some v else lookup j m)
  unfolding lookup insert
  lookup-insert k j v [] = refl
  lookup-insert k j v ((i, w) ∷ m) =
      ground (arith, o.eq_iff k j, o.eq_iff i k, o.eq_iff i j, lookup-insert k j v m)

  pub lookup-insert_self : (k : K) (v : V) (m : Dict K V) → lookup k (insert k v m) ≡ some v
  lookup-insert_self k v m = rw (lookup-insert, eq_refl)

  pub lookup-insert_ne :
      (k j : K) (v : V) (m : Dict K V) → o.eq k j ≡ false → lookup j (insert k v m) ≡ lookup j m
  lookup-insert_ne k j v m h = rw (lookup-insert, h)

  pub lookup-emplace_self :
      (k : K) (v : V) (m : Dict K V) → lookup k m ≡ none → lookup k (emplace k v m) ≡ some v
  unfolding emplace
  lookup-emplace_self k v m h = rw (h, emplace) (lookup-insert_self k v m)
