-- ===== src/Main/Print.antt =====
-- What is logged of libbpf's messages.
use slurm_tracer.Common.{
  ℕ, zero, suc, ◌+◌, ◌<◌, ◌≤◌, ◌≡◌, ◌≢◌, refl, ap, ◌∙◌, [], ◌∷◌, ◌++◌, append_assoc, take-append,
  Option, some, arith, length, length-append, take, ◌==◌, false,
}
use slurm_tracer.Text.{Bytes, codes}
use slurm_tracer.Main.{Level, warn, info, debug, severity, buffer, chomp, libbpf_print}

take_all : (n : ℕ) (s : Bytes) → length s ≤ n → take n s ≡ s
take_all zero [] h = refl
take_all zero (c ∷ s) h = absurd (omega (arith, h))
take_all (suc n) [] h = refl
take_all (suc n) (c ∷ s) h = λ i. c ∷ take_all n s (omega (arith, h)) i

take-append_within : (n : ℕ) (s t : Bytes) → n ≤ length s → take n (s ++ t) ≡ take n s
take-append_within zero s t h = refl
take-append_within (suc n) [] t h = absurd (omega (arith, h))
take-append_within (suc n) (c ∷ s) t h = λ i. c ∷ take-append_within n s t (omega (arith, h)) i

take-append_beyond :
    (k n m : ℕ) (s t : Bytes) → length s ≡ k → n ≡ k + m → take n (s ++ t) ≡ s ++ take m t
take-append_beyond zero n m [] t e h = ap (λ i. take i t) (h ∙ omega arith)
take-append_beyond zero n m (c ∷ s) t e h = absurd (omega (arith, e))
take-append_beyond (suc k) n m [] t e h = absurd (omega (arith, e))
take-append_beyond (suc k) zero m (c ∷ s) t e h = absurd (omega (arith, h))
take-append_beyond (suc k) (suc n) m (c ∷ s) t e h =
    λ i. c ∷ take-append_beyond k n m s t (omega (arith, e)) (omega (arith, h)) i

length-take : (n : ℕ) (s : Bytes) → n ≤ length s → length (take n s) ≡ n
length-take zero s h = refl
length-take (suc n) [] h = absurd (omega (arith, h))
length-take (suc n) (c ∷ s) h = ap suc (length-take n s (omega (arith, h)))

viewed :
    (beyond text : Bytes) → length text < 1_024 → take (length text) (buffer text ++ beyond) ≡ text
viewed beyond text short =
    let whole = take_all 1_023 text (omega (arith, short)) in
    ap (λ b. take (length text) ((b ++ 0 ∷ []) ++ beyond)) whole
    ∙ ap (take (length text)) (append_assoc text (0 ∷ []) beyond)
    ∙ take-append text (0 ∷ beyond)

overrun :
    (beyond text : Bytes) (m : ℕ)
    → length text ≡ 1_024 + m
    → take (length text) (buffer text ++ beyond) ≡ buffer text ++ take m beyond
overrun beyond text m long =
    let full =
      length-append (take 1_023 text) (0 ∷ [])
      ∙ ap (λ n. n + 1) (length-take 1_023 text (omega (arith, long))) in
    take-append_beyond 1_024 (length text) m (buffer text) beyond full long

-- A line around a view of the memory.
abbrev line : Level → Bytes → Option (Level × Bytes)
line level view = some (severity level, codes "libbpf: " ++ chomp view)

not_zero : (n : ℕ) → (suc n == 0) ≡ false
not_zero n = ground arith

logged :
    (beyond : Bytes) (c : ℕ) (s : Bytes) (level : Level)
    → level ≢ debug
    → libbpf_print beyond level (some (c ∷ s))
      ≡ line level (take (suc (length s)) (buffer (c ∷ s) ++ beyond))
unfolding libbpf_print
logged beyond c s debug seen = absurd (seen refl)
logged beyond c s warn seen = rw (not_zero (length s), libbpf_print) refl
logged beyond c s info seen = rw (not_zero (length s), libbpf_print) refl

-- A message of libbpf that has a text of at least one byte, and is not for debugging, is logged as a warning
-- if it is one, and otherwise as information. A text that has room in the buffer, with its terminator, is
-- logged whole, but for a newline at its end, whatever stands behind it in memory. Of a longer one the line
-- holds the part in the buffer, with the terminator, and behind that as many bytes of the memory beyond the
-- buffer as the text has more than the buffer.
pub libbpf_print_lem :
    (beyond text : Bytes) (level : Level)
    → level ≢ debug
    → text ≢ []
    → (length text < 1_024
        → libbpf_print beyond level (some text)
          ≡ some (severity level, codes "libbpf: " ++ chomp text))
      × ((m : ℕ)
          → length text ≡ 1_024 + m
          → libbpf_print beyond level (some text)
            ≡ some (severity level, codes "libbpf: " ++ chomp (buffer text ++ take m beyond)))
libbpf_print_lem beyond [] level seen filled = absurd (filled refl)
libbpf_print_lem beyond (c ∷ s) level seen filled =
    let shown = logged beyond c s level seen in
    (
      λ short. shown ∙ ap (line level) (viewed beyond (c ∷ s) short),
      λ m long. shown ∙ ap (line level) (overrun beyond (c ∷ s) m long),
    )
