-- ===== src/Config/Values.antt =====
-- What the typed readers of a setting accept.
use slurm_tracer.Common.{
  ℕ, ◌*◌, ◌^◌, ◌<◌, ◌≤◌, ◌≡◌, ◌≢◌, refl, ◌∙◌, ap, true, false, [], ◌∷◌, ◌++◌, Option, none, some,
  arith, ◌==◌, length, take, drop, take-append, drop-append, append-nil, sym, Bool-cases, inl, inr,
}
use slurm_tracer.Text.{Bytes, codes, same, is_digit, all_digits, strtoul, u64_max}
use slurm_tracer.Text.Decimal.{to_string, value-to_string, all_digits-to_string, to_string-ne-nil}
use slurm_tracer.Text.Laws.{is_empty_of_ne, same_iff}
use slurm_tracer.Dict.{text_key}
use slurm_tracer.Dict.Laws.{lookup-insert_self}
use slurm_tracer.Config.{
  ComponentConfig, set, get_uint, parse_uint, parse_duration_ms, count_digits, unit_ms,
}

parse_uint-to_string : (n fallback : ℕ) → n ≤ u64_max → parse_uint (to_string n) fallback ≡ n
unfolding parse_uint strtoul
parse_uint-to_string n fallback h = ground (
  arith,
  is_empty_of_ne (to_string n) (to_string-ne-nil n),
  all_digits-to_string n,
  value-to_string n,
)

-- A number within 64 bits that is set in decimal is read back as it is.
pub get_uint-set :
    (c : ComponentConfig) (key : Bytes) (n fallback : ℕ)
    → n ≤ u64_max
    → get_uint (set c key (to_string n)) key fallback ≡ n
unfolding get_uint set
get_uint-set c key n fallback h =
    ground (arith, lookup-insert_self key (to_string n) c, parse_uint-to_string n fallback h)

same-ne : (s t : Bytes) → s ≢ t → same s t ≡ false
same-ne s t h = elim (Bool-cases (same s t)) [ inl e ↦ absurd (h ((same_iff s t).0 e)) | inr e ↦ e ]

-- No digit, or a digit.
abbrev pub StartsLate : Bytes → Type 0
StartsLate [] = Unit
StartsLate (c ∷ s) = is_digit c ≡ false

count_digits-append :
    (ds rest : Bytes)
    → all_digits ds ≡ true
    → StartsLate rest
    → count_digits (ds ++ rest) ≡ length ds
unfolding count_digits all_digits
count_digits-append [] [] h k = refl
count_digits-append [] (c ∷ rest) h k = rw k
count_digits-append (d ∷ ds) rest h k = ground (arith, count_digits-append ds rest)

count_digits-ne-zero : (s : Bytes) → s ≢ [] → (length s == 0) ≡ false
count_digits-ne-zero [] h = absurd (h refl)
count_digits-ne-zero (c ∷ s) h = ground arith

abbrev pub times : ℕ → Option ℕ → Option ℕ
times n none = none
times n (some ms) = some (n * ms)

-- A decimal number followed by a text that is no number.
parse_duration_ms-append :
    (n : ℕ) (unit : Bytes)
    → n * 3_600_000 < 2 ^ 63
    → StartsLate unit
    → parse_duration_ms (to_string n ++ unit) ≡ times n (unit_ms unit)
unfolding parse_duration_ms strtoul
parse_duration_ms-append n unit h k =
    let text = to_string n ++ unit in
    let at = count_digits-append (to_string n) unit (all_digits-to_string n) k in
    let number : take (count_digits text) text ≡ to_string n =
      ap (λ i. take i text) at ∙ take-append (to_string n) unit in
    let rest : drop (count_digits text) text ≡ unit =
      ap (λ i. drop i text) at ∙ drop-append (to_string n) unit in
    ground (
      arith,
      at,
      number,
      rest,
      count_digits-ne-zero (to_string n) (to_string-ne-nil n),
      value-to_string n,
    )

unit_ms-eq-none :
    (unit : Bytes)
    → unit ≢ []
    → unit ≢ codes "ms"
    → unit ≢ codes "s"
    → unit ≢ codes "m"
    → unit ≢ codes "h"
    → unit_ms unit ≡ none
unit_ms-eq-none unit empty ms s m h = ground (
  arith,
  is_empty_of_ne unit empty,
  same-ne unit (codes "ms") ms,
  same-ne unit (codes "s") s,
  same-ne unit (codes "m") m,
  same-ne unit (codes "h") h,
)

-- A decimal number alone, or followed by "ms", is read as that many milliseconds; followed by "s", "m" or
-- "h" as a thousand, sixty thousand or 3,600,000 times as many; and followed by any other text that starts
-- with no digit it is refused. The number is so small that no unit takes it out of the range of a 64-bit
-- signed number.
pub parse_duration_ms-to_string :
    (n : ℕ)
    → n * 3_600_000 < 2 ^ 63
    → (parse_duration_ms (to_string n) ≡ some n)
      × (parse_duration_ms (to_string n ++ codes "ms") ≡ some n)
      × (parse_duration_ms (to_string n ++ codes "s") ≡ some (n * 1_000))
      × (parse_duration_ms (to_string n ++ codes "m") ≡ some (n * 60_000))
      × (parse_duration_ms (to_string n ++ codes "h") ≡ some (n * 3_600_000))
      × ((unit : Bytes)
          → StartsLate unit
          → unit ≢ []
          → unit ≢ codes "ms"
          → unit ≢ codes "s"
          → unit ≢ codes "m"
          → unit ≢ codes "h"
          → parse_duration_ms (to_string n ++ unit) ≡ none)
unfolding same
parse_duration_ms-to_string n h =
    let one : n * 1 ≡ n = omega arith in
    (
      ap parse_duration_ms (sym (append-nil (to_string n)))
          ∙ parse_duration_ms-append n [] h tt
          ∙ ap some one,
      parse_duration_ms-append n (codes "ms") h refl ∙ ap some one,
      parse_duration_ms-append n (codes "s") h refl,
      parse_duration_ms-append n (codes "m") h refl,
      parse_duration_ms-append n (codes "h") h refl,
      λ unit late empty ms s m hours.
          parse_duration_ms-append n unit h late
          ∙ ap (times n) (unit_ms-eq-none unit empty ms s m hours),
    )
