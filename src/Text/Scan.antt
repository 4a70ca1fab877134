-- ===== src/Text/Scan.antt =====
-- Searches for a text in a text, and the numbers that <cstdlib> reads at the start of one.
use slurm_tracer.Common.{
  ℕ, suc, ◌+◌, ◌-◌, ◌%◌, ◌≤◌, ◌≡◌, refl, Bool, true, false, ◌&&◌, ◌||◌, [], ◌∷◌, ◌++◌, Option, none,
  some, arith, length, leb, ltb, ◌==◌, if◌then◌else◌, Bool-cases, Option-cases, inl, inr,
}
use slurm_tracer.Text.{Bytes, is_empty, is_digit, value, u64_max, starts_with}
use slurm_tracer.Words.{u64}

-- `s.find(p)`: where the first `p` starts.
unfoldable pub find_text : Bytes → Bytes → Option ℕ
find_text p [] = if is_empty p then some 0 else none
find_text p (c ∷ s) =
    if starts_with p (c ∷ s)
    then some 0
    else (elim (find_text p s) [ none ↦ none | some i ↦ some (suc i) ])

abbrev pub is_space : ℕ → Bool
is_space c = c == b' ' || (leb 9 c && leb c 13)

unfoldable pub skip_space : Bytes → Bytes
skip_space [] = []
skip_space (c ∷ s) = let rest = skip_space s in if is_space c then rest else c ∷ s

unfoldable pub leading_digits : Bytes → Bytes
leading_digits [] = []
leading_digits (c ∷ s) = let rest = leading_digits s in if is_digit c then c ∷ rest else []

-- Whether there is a minus sign, and what follows the sign.
unfoldable pub split_sign : Bytes → Bool × Bytes
split_sign [] = (false, [])
split_sign (c ∷ s) =
    if c == b'-' then (true, s) else if c == b'+' then (false, s) else (false, c ∷ s)

-- `strtoul(s, nullptr, 10)` with no look at errno: the number at the start, negated modulo 2 ^ 64 behind a
-- minus sign, or the largest one where it does not fit.
unfoldable pub strtoul_prefix : Bytes → ℕ
unfolding skip_space leading_digits split_sign value
strtoul_prefix s =
    let (minus, rest) = split_sign (skip_space s) in
    let n = value 0 (leading_digits rest) in
    if leb n u64_max then (if minus then (u64 - n) % u64 else n) else u64_max

-- `atoi(s)`, where a negative number is none. What it returns for a number that no int can hold is
-- undefined, and is a parameter.
unfoldable pub atoi : Option ℕ → Bytes → Option ℕ
unfolding skip_space leading_digits split_sign value
atoi wild s =
    let (minus, rest) = split_sign (skip_space s) in
    let n = value 0 (leading_digits rest) in
    if ltb (if minus then 2_147_483_648 else 2_147_483_647) n
    then wild
    else if minus && ltb 0 n
    then none
    else some n

starts_with_nil : (s : Bytes) → starts_with [] s ≡ true
unfolding starts_with
starts_with_nil s = refl

starts_with-length : (p s : Bytes) → starts_with p s ≡ true → length p ≤ length s
unfolding starts_with
starts_with-length [] s h = omega arith
starts_with-length (c ∷ p) [] h = cc
starts_with-length (c ∷ p) (d ∷ s) h = ground (arith, starts_with-length p s)

-- A text that is long enough decides what it starts with.
starts_with-append_right :
    (p s t : Bytes) → length p ≤ length s → starts_with p (s ++ t) ≡ starts_with p s
unfolding starts_with
starts_with-append_right [] s t h = refl
starts_with-append_right (c ∷ p) [] t h = absurd (omega arith)
starts_with-append_right (c ∷ p) (d ∷ s) t h = ground (arith, starts_with-append_right p s t)

-- What is found lies within the text.
pub find_text_within : (p s : Bytes) (i : ℕ) → find_text p s ≡ some i → i + length p ≤ length s
unfolding find_text
find_text_within [] [] i h = ground arith
find_text_within (c ∷ p) [] i h = cc
find_text_within p (c ∷ s) i h = elim (Option-cases (find_text p s)) [
  | inl e ↦ ground (arith, starts_with-length p (c ∷ s))
  | inr (j, e) ↦ ground (arith, starts_with-length p (c ∷ s), find_text_within p s j e)
]

-- What is found is found as well when more text follows.
pub find_text-append :
    (p s t : Bytes) (i : ℕ) → find_text p s ≡ some i → find_text p (s ++ t) ≡ some i
unfolding find_text
find_text-append [] [] [] i h = h
find_text-append [] [] (d ∷ t) i h = ground (arith, starts_with_nil (d ∷ t))
find_text-append (c ∷ p) [] t i h = cc
find_text-append p (c ∷ s) t i h = elim (Option-cases (find_text p s)) [
  | inl e ↦ ground (arith, starts_with-length p (c ∷ s), starts_with-append_right p (c ∷ s) t)
  | inr (j, e) ↦ ground (
    arith,
    find_text_within p s j e,
    starts_with-append_right p (c ∷ s) t,
    find_text-append p s t j e,
  )
]

starts_with_prefix : (p q s : Bytes) → starts_with (p ++ q) s ≡ true → starts_with p s ≡ true
unfolding starts_with
starts_with_prefix [] q s h = refl
starts_with_prefix (c ∷ p) q [] h = cc
starts_with_prefix (c ∷ p) q (d ∷ s) h = ground (arith, starts_with_prefix p q s)

-- The start of what is found is found no later.
pub find_text_prefix :
    (p q s : Bytes) (i : ℕ)
    → find_text (p ++ q) s ≡ some i
    → (j : ℕ) × (find_text p s ≡ some j) × (j ≤ i)
unfolding find_text
find_text_prefix [] q [] i h = (0, refl, omega arith)
find_text_prefix (c ∷ p) q [] i h = cc
find_text_prefix p q (c ∷ s) i h = elim (Bool-cases (starts_with p (c ∷ s))) [
  | inl e ↦ (0, ground arith, omega arith)
  | inr e ↦ elim (Option-cases (find_text (p ++ q) s)) [
    | inl f ↦ absurd (ground (arith, starts_with_prefix p q (c ∷ s)))
    | inr (k, f) ↦
        let (j, found, below) = find_text_prefix p q s k f in
        (suc j, ground arith, ground (arith, starts_with_prefix p q (c ∷ s)))
  ]
]
