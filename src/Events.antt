-- ===== src/Events.antt =====
-- src/core/events.h: the header of every event, and how userspace reads a char array of the wire format.
use slurm_tracer.Common.{
  ℕ, zero, suc, ◌≡◌, ◌<◌, refl, [], ◌∷◌, ◌++◌, arith, ◌==◌, if◌then◌else◌, length, take,
}
use slurm_tracer.Text.{Bytes}
use slurm_tracer.Text.Find.{Lacks}

pub record EventHdr : Type 0 where
  pub ts_ns : ℕ
  pub cgroup_id : ℕ
  pub type : ℕ
  pub pid : ℕ
  pub tid : ℕ
  pub uid : ℕ

abbrev pub comm_len : ℕ
comm_len = 16

-- `strnlen` of a char array, read for at most the given number of bytes.
unfoldable pub strnlen : Bytes → ℕ → ℕ
strnlen s zero = 0
strnlen [] (suc n) = 0
strnlen (c ∷ s) (suc n) = if c == 0 then 0 else suc (strnlen s n)

-- `assign(s, strnlen(s, n))`.
unfoldable pub bounded_text : Bytes → ℕ → Bytes
unfolding strnlen
bounded_text s n = take (strnlen s n) s

pub bounded_text-terminated :
    (s rest : Bytes) (n : ℕ) → Lacks 0 s → length s < n → bounded_text (s ++ 0 ∷ rest) n ≡ s
unfolding bounded_text
bounded_text-terminated [] rest zero h k = refl
bounded_text-terminated [] rest (suc n) h k = refl
bounded_text-terminated (c ∷ s) rest zero h k = elim k [ ]
bounded_text-terminated (c ∷ s) rest (suc n) h k =
    ground (arith, bounded_text-terminated s rest n h.1)

pub bounded_text-full : (s : Bytes) (n : ℕ) → Lacks 0 s → length s ≡ n → bounded_text s n ≡ s
unfolding bounded_text
bounded_text-full [] zero h k = refl
bounded_text-full [] (suc n) h k = refl
bounded_text-full (c ∷ s) zero h k = absurd (omega arith)
bounded_text-full (c ∷ s) (suc n) h k = ground (arith, bounded_text-full s n h.1)
