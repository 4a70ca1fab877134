-- ===== src/Text.antt =====
-- std::string as its list of bytes, with the operations of <string>, <cctype> and <cstdlib> that the
-- program calls.
pub mod Laws
pub mod Decimal
pub mod Find
pub mod Scan
use Prim.Native.Char.{code}
use Prim.Native.String.{String}
use slurm_tracer.Common.{
  ℕ, zero, suc, ◌+◌, ◌-◌, ◌*◌, ◌^◌, Bool, true, false, ◌&&◌, ◌||◌, List, [], ◌∷◌, Option, none,
  some, ltb, leb, ◌==◌, if◌then◌else◌,
}

abbrev pub Bytes : Type 0
Bytes = List ℕ

-- The code points of a literal: these are its bytes, since every literal of the program is ASCII.
abbrev pub codes : String → Bytes
codes String.[] = []
codes (String.◌∷◌ c s) = code c ∷ codes s

-- operator== of std::string.
unfoldable pub same : Bytes → Bytes → Bool
same [] [] = true
same [] (d ∷ t) = false
same (c ∷ s) [] = false
same (c ∷ s) (d ∷ t) = c == d && same s t

-- operator< of std::string, the order of the keys in a std::map.
unfoldable pub before : Bytes → Bytes → Bool
before s [] = false
before [] (d ∷ t) = true
before (c ∷ s) (d ∷ t) = ltb c d || (c == d && before s t)

abbrev pub is_empty : Bytes → Bool
is_empty [] = true
is_empty (c ∷ s) = false

-- `s.compare(0, prefix.size(), prefix) == 0`, and `s.rfind(prefix, 0) == 0`.
unfoldable pub starts_with : Bytes → Bytes → Bool
starts_with [] s = true
starts_with (c ∷ p) [] = false
starts_with (c ∷ p) (d ∷ s) = c == d && starts_with p s

-- `s.find(c)`: the index of the first `c`.
unfoldable pub find : ℕ → Bytes → Option ℕ
find c [] = none
find c (d ∷ s) =
    if d == c then some 0 else (elim (find c s) [ none ↦ none | some i ↦ some (suc i) ])

abbrev pub is_digit : ℕ → Bool
is_digit c = leb b'0' c && leb c b'9'

unfoldable pub all_digits : Bytes → Bool
all_digits [] = true
all_digits (c ∷ s) = is_digit c && all_digits s

-- The number that the digits of a text spell behind `n`, with no bound.
unfoldable pub value : ℕ → Bytes → ℕ
value n [] = n
value n (c ∷ s) = value (n * 10 + (c - b'0')) s

abbrev pub u64_max : ℕ
u64_max = 2 ^ 64 - 1

abbrev pub u32_max : ℕ
u32_max = 2 ^ 32 - 1

-- `strtoul` and `strtoull` on a text of digits: `none` is ERANGE.
unfoldable pub strtoul : Bytes → Option ℕ
unfolding value
strtoul s = let n = value 0 s in if leb n u64_max then some n else none

abbrev pub to_lower : ℕ → ℕ
to_lower c = if leb b'A' c && leb c b'Z' then c + 32 else c

unfoldable pub lower : Bytes → Bytes
lower [] = []
lower (c ∷ s) = to_lower c ∷ lower s
