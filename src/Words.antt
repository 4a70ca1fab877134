-- ===== src/Words.antt =====
-- Arithmetic of std::uint64_t, which wraps around.
use slurm_tracer.Common.{ℕ, ◌+◌, ◌-◌, ◌^◌, ◌%◌}

abbrev pub u64 : ℕ
u64 = 2 ^ 64

abbrev pub add64 : ℕ → ℕ → ℕ
add64 a b = (a + b) % u64

abbrev pub sub64 : ℕ → ℕ → ℕ
sub64 a b = (a + u64 - b) % u64

-- `++n`.
abbrev pub incr64 : ℕ → ℕ
incr64 n = (n + 1) % u64
