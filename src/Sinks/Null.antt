-- ===== src/Sinks/Null.antt =====
-- src/sinks/null/sink.h: counts records and discards them.
use slurm_tracer.Common.{ℕ, ◌+◌, ◌%◌, ◌≡◌, List, [], ◌∷◌, length, arith}
use slurm_tracer.Words.{u64, add64}
use slurm_tracer.Record.{Record}

pub record NullSink : Type 0 where
  pub records : ℕ

unfoldable pub write : NullSink → List Record → NullSink
write s batch = record { records = add64 s.records (length batch) }

unfoldable pub write_batches : NullSink → List (List Record) → NullSink
unfolding write
write_batches s [] = s
write_batches s (b ∷ bs) = write_batches (write s b) bs

abbrev pub flat_length : List (List Record) → ℕ
flat_length [] = 0
flat_length (b ∷ bs) = length b + flat_length bs

-- The count is that of all records in all batches, modulo 2 ^ 64.
pub write_batches-counts :
    (s : NullSink) (bs : List (List Record))
    → (write_batches s bs).records % u64 ≡ (s.records + flat_length bs) % u64
unfolding write_batches
write_batches-counts s [] = omega arith
write_batches-counts s (b ∷ bs) = omega (arith, write_batches-counts (write s b) bs)
