-- ===== src/Text/Decimal.antt =====
-- std::to_string of an unsigned number, and how the parsers read it back.
use slurm_tracer.Common.{
  ℕ, zero, suc, ◌+◌, ◌/◌, ◌%◌, ◌<◌, ◌≡◌, ◌≢◌, refl, true, [], ◌∷◌, arith, ◌==◌, if◌then◌else◌,
}
use slurm_tracer.Text.{Bytes, all_digits, value}

-- The last digits of `n` in front of `out`; the fuel bounds the number of digits.
digits : ℕ → ℕ → Bytes → Bytes
digits zero n out = out
digits (suc f) n out =
    let more = digits f (n / 10) ((b'0' + n % 10) ∷ out) in
    if n / 10 == 0 then (b'0' + n % 10) ∷ out else more

unfoldable pub to_string : ℕ → Bytes
unfolding digits
to_string n = digits (suc n) n []

value-digits : (f n : ℕ) (out : Bytes) → n < f → value 0 (digits f n out) ≡ value n out
unfolding digits value
value-digits zero n out h = elim h [ ]
value-digits (suc f) n out h = ground (arith, value-digits f (n / 10) ((b'0' + n % 10) ∷ out))

pub value-to_string : (n : ℕ) → value 0 (to_string n) ≡ n
unfolding to_string value
value-to_string n = value-digits (suc n) n [] (omega arith)

all_digits-digits :
    (f n : ℕ) (out : Bytes) → all_digits out ≡ true → all_digits (digits f n out) ≡ true
unfolding digits all_digits
all_digits-digits zero n out h = h
all_digits-digits (suc f) n out h =
    ground (arith, all_digits-digits f (n / 10) ((b'0' + n % 10) ∷ out))

pub all_digits-to_string : (n : ℕ) → all_digits (to_string n) ≡ true
unfolding to_string all_digits
all_digits-to_string n = all_digits-digits (suc n) n [] refl

digits-ne-nil : (f n : ℕ) (out : Bytes) → out ≢ [] → digits f n out ≢ []
unfolding digits
digits-ne-nil zero n out h = h
digits-ne-nil (suc f) n out h = ground (arith, digits-ne-nil f (n / 10) ((b'0' + n % 10) ∷ out))

pub to_string-ne-nil : (n : ℕ) → to_string n ≢ []
unfolding to_string digits
to_string-ne-nil n = ground (arith, digits-ne-nil n (n / 10) ((b'0' + n % 10) ∷ []))
