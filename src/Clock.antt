-- ===== src/Clock.antt =====
-- src/core/utilities/clock.cpp. What the kernel's clocks show is an argument of each call.
use slurm_tracer.Common.{ℕ, ◌+◌, ◌*◌, ◌%◌, ◌≡◌, refl, Option, none, some, arith}
use slurm_tracer.Words.{u64, add64, sub64}

pub record Timespec : Type 0 where
  pub tv_sec : ℕ
  pub tv_nsec : ℕ

-- CLOCK_MONOTONIC and CLOCK_REALTIME at one instant.
pub record Clocks : Type 0 where
  pub monotonic : Timespec
  pub realtime : Timespec

unfoldable pub to_ns : Timespec → ℕ
to_ns ts = (ts.tv_sec * 1_000_000_000 + ts.tv_nsec) % u64

unfoldable pub monotonic_ns : Clocks → ℕ
unfolding to_ns
monotonic_ns c = to_ns c.monotonic

unfoldable pub realtime_ns : Clocks → ℕ
unfolding to_ns
realtime_ns c = to_ns c.realtime

-- The static of `boot_offset_ns`: `none` until the first call. A call returns the offset and the
-- static after it.
unfoldable pub boot_offset_ns : Option ℕ → Clocks → ℕ × Option ℕ
unfolding monotonic_ns realtime_ns
boot_offset_ns none c = let offset = sub64 (realtime_ns c) (monotonic_ns c) in (offset, some offset)
boot_offset_ns (some offset) c = (offset, some offset)

-- What the first call returns, every later call returns, whatever the clocks show by then.
pub boot_offset_sampled_once :
    (static : Option ℕ) (c later : Clocks)
    → boot_offset_ns (boot_offset_ns static c).1 later ≡ boot_offset_ns static c
unfolding boot_offset_ns
boot_offset_sampled_once none c later = refl
boot_offset_sampled_once (some offset) c later = refl

-- At the instant of the first call, the offset takes the monotonic clock to the wall clock, also where
-- the difference wraps around.
pub boot_offset-add-monotonic :
    (c : Clocks) → add64 (monotonic_ns c) (boot_offset_ns none c).0 ≡ realtime_ns c
unfolding boot_offset_ns
boot_offset-add-monotonic c = omega arith
