-- ===== src/Dict.antt =====
-- std::map and std::unordered_map as a list of pairs in the order of the keys, which is the order in
-- which a std::map is walked. (Nothing depends on the order in which an unordered_map is walked.)
pub mod Laws
pub mod Retain
use slurm_tracer.Common.{
  ℕ, ◌≡◌, refl, ◌↔◌, Bool, true, false, List, [], ◌∷◌, Option, none, some, arith, ltb, ◌==◌, ==_iff,
  if◌then◌else◌,
}
use slurm_tracer.Text.{Bytes, same, before}
use slurm_tracer.Text.Laws.{same_iff, before_irrefl, before_trans, before_total}

-- What a key type offers: its equality, and a strict total order.
pub record Key (K : Type 0) : Type 0 where
  pub eq : K → K → Bool
  pub less : K → K → Bool
  pub eq_iff : (a b : K) → (eq a b ≡ true) ↔ (a ≡ b)
  pub less_irrefl : (a : K) → less a a ≡ false
  pub less_trans : (a b c : K) → less a b ≡ true → less b c ≡ true → less a c ≡ true
  pub less_total : (a b : K) → eq a b ≡ false → less a b ≡ false → less b a ≡ true

pub nat_irrefl : (a : ℕ) → ltb a a ≡ false
nat_irrefl a = ground arith

pub nat_trans : (a b c : ℕ) → ltb a b ≡ true → ltb b c ≡ true → ltb a c ≡ true
nat_trans a b c h k = ground arith

pub nat_total : (a b : ℕ) → (a == b) ≡ false → ltb a b ≡ false → ltb b a ≡ true
nat_total a b h k = ground arith

instance abbrev pub nat_key : Key ℕ
nat_key = record {
  eq = ◌==◌;
  less = ltb;
  eq_iff = ==_iff;
  less_irrefl = nat_irrefl;
  less_trans = nat_trans;
  less_total = nat_total;
}

instance abbrev pub text_key : Key Bytes
text_key = record {
  eq = same;
  less = before;
  eq_iff = same_iff;
  less_irrefl = before_irrefl;
  less_trans = before_trans;
  less_total = before_total;
}

abbrev pub Dict : Type 0 → Type 0 → Type 0
Dict K V = List (K × V)

module _ {K : Type 0} {V : Type 0} ⦃o : Key K⦄ where
  -- `find`, and `at` where the key is there.
  unfoldable pub lookup : K → Dict K V → Option V
  lookup k [] = none
  lookup k ((j, v) ∷ m) = if o.eq j k then some v else lookup k m

  -- `insert_or_assign`, and `m[k] = v`.
  unfoldable pub insert : K → V → Dict K V → Dict K V
  insert k v [] = (k, v) ∷ []
  insert k v ((j, w) ∷ m) =
      let rest = insert k v m in
      if o.eq j k then (k, v) ∷ m else if o.less k j then (k, v) ∷ (j, w) ∷ m else (j, w) ∷ rest

  -- `emplace`: a key that is there keeps its value.
  unfoldable pub emplace : K → V → Dict K V → Dict K V
  emplace k v m = elim (lookup k m) [ none ↦ insert k v m | some w ↦ m ]

  -- The loop that erases the entries which fail a test.
  unfoldable pub retain : (K → V → Bool) → Dict K V → Dict K V
  retain p [] = []
  retain p ((k, v) ∷ m) = if p k v then (k, v) ∷ retain p m else retain p m

  -- `erase(key)`.
  unfoldable pub erase : K → Dict K V → Dict K V
  erase k [] = []
  erase k ((j, v) ∷ m) = if o.eq j k then m else (j, v) ∷ erase k m
