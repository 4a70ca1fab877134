-- ===== src/Text/Find.antt =====
-- Where a byte first stands in a text.
use slurm_tracer.Common.{
  ℕ, ◌≡◌, ◌≢◌, refl, ap, ◌⊎◌, inl, inr, [], ◌∷◌, ◌++◌, none, some, arith, All, length, ◌==◌,
  Bool-cases,
}
use slurm_tracer.Text.{Bytes, find}

abbrev pub Lacks : ℕ → Bytes → Type 0
Lacks b = All (λ c. c ≢ b)

pub find_of_Lacks : (b : ℕ) (s : Bytes) → Lacks b s → find b s ≡ none
unfolding find
find_of_Lacks b [] h = refl
find_of_Lacks b (c ∷ s) h = ground (arith, find_of_Lacks b s h.1)

pub find-append : (b : ℕ) (s t : Bytes) → Lacks b s → find b (s ++ b ∷ t) ≡ some (length s)
unfolding find
find-append b [] t h = ground arith
find-append b (c ∷ s) t h = ground (arith, find-append b s t h.1)

-- A text without the byte, or what stands before its first place and what stands after it.
abbrev pub Cut : ℕ → Bytes → Type 0
Cut b s = Lacks b s ⊎ ((a : Bytes) × (r : Bytes) × (s ≡ a ++ b ∷ r) × Lacks b a)

Cut-cons : (b c : ℕ) (s : Bytes) → c ≢ b → Cut b s → Cut b (c ∷ s)
Cut-cons b c s h (inl k) = inl (h, k)
Cut-cons b c s h (inr (a, r, e, k)) = inr (c ∷ a, r, ap (◌∷◌ c) e, (h, k))

pub cut : (b : ℕ) (s : Bytes) → Cut b s
cut b [] = inl tt
cut b (c ∷ s) =
    let rest = cut b s in
    elim (Bool-cases (c == b)) [
      | inl e ↦ inr ([], s, ground arith, tt)
      | inr e ↦ Cut-cons b c s (ground arith) rest
    ]
