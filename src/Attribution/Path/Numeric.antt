-- ===== src/Attribution/Path/Numeric.antt =====
-- What a numbered segment says.
use slurm_tracer.Common.{
  ℕ, ◌≤◌, ◌≡◌, ◌≢◌, ◌↔◌, refl, true, false, [], ◌∷◌, ◌++◌, some, none, arith, length, leb, drop,
  drop-append, length-append,
}
use slurm_tracer.Text.{Bytes, all_digits, value, strtoul, starts_with, u32_max}
use slurm_tracer.Text.Laws.{is_empty_of_ne, starts_with-append, starts_with_sound}
use slurm_tracer.Text.Decimal.{to_string, value-to_string, all_digits-to_string, to_string-ne-nil}
use slurm_tracer.Attribution.Path.{parse_numeric_suffix}

not_short : (p ds : Bytes) → ds ≢ [] → leb (length (p ++ ds)) (length p) ≡ false
not_short p [] h = absurd (h refl)
not_short p (c ∷ s) h = ground (arith, length-append p (c ∷ s))

pub parse_numeric_suffix_complete :
    (p ds : Bytes)
    → ds ≢ []
    → all_digits ds ≡ true
    → value 0 ds ≤ u32_max
    → parse_numeric_suffix (p ++ ds) p ≡ some (value 0 ds)
unfolding parse_numeric_suffix strtoul
parse_numeric_suffix_complete p ds h k fits =
    rw (not_short p ds h, starts_with-append p ds, drop-append p ds, is_empty_of_ne ds h, k)
      (ground arith)

pub parse_numeric_suffix_sound :
    (seg p : Bytes) (n : ℕ)
    → parse_numeric_suffix seg p ≡ some n
    → (seg ≡ p ++ drop (length p) seg)
      × (drop (length p) seg ≢ [])
      × (all_digits (drop (length p) seg) ≡ true)
      × (value 0 (drop (length p) seg) ≡ n)
      × (n ≤ u32_max)
unfolding parse_numeric_suffix strtoul
parse_numeric_suffix_sound seg p n h = ground (arith, starts_with_sound p seg)

-- A segment is read as the number n behind a prefix exactly when it is that prefix followed by one or
-- more digits, and nothing else, that spell n with n within 32 bits.
pub parse_numeric_suffix_iff :
    (seg p : Bytes) (n : ℕ)
    → (parse_numeric_suffix seg p ≡ some n) ↔ (
        (ds : Bytes) × (seg ≡ p ++ ds)
        × (ds ≢ [])
        × (all_digits ds ≡ true)
        × (value 0 ds ≡ n)
        × (n ≤ u32_max))
parse_numeric_suffix_iff seg p n = (
  λ h.
      let (e, full, k, v, fits) = parse_numeric_suffix_sound seg p n h in
      (drop (length p) seg, e, full, k, v, fits),
  λ (ds, e, h, k, v, fits). rw (e, ← v) (parse_numeric_suffix_complete p ds h k (rw v fits)),
)

pub parse_numeric_suffix-to_string :
    (p : Bytes) (n : ℕ) → n ≤ u32_max → parse_numeric_suffix (p ++ to_string n) p ≡ some n
parse_numeric_suffix-to_string p n h =
    (parse_numeric_suffix_iff (p ++ to_string n) p n).1
      (to_string n, refl, to_string-ne-nil n, all_digits-to_string n, value-to_string n, h)

-- Another prefix is not read.
pub parse_numeric_suffix_other :
    (seg p : Bytes) → starts_with p seg ≡ false → parse_numeric_suffix seg p ≡ none
unfolding parse_numeric_suffix
parse_numeric_suffix_other seg p h = rw h (ground arith)
