-- ===== src/Daemon/Run/Step.antt =====
-- The loop by rounds.
use slurm_tracer.Common.{ℕ, ◌≡◌, refl, List, [], ◌∷◌, some, true, false}
use slurm_tracer.EventLoop.{poll}
use slurm_tracer.Daemon.{Daemon}
use slurm_tracer.Daemon.Run.{
  Round, Output, arrive_all, ticks, on_pipeline, reload_if, finish, behind, run,
}

-- A round and the rest, where polling succeeds.
pub run_step :
    (at : ℕ) (r : Round) (rs : List Round) (d a b c : Daemon) (calls more later : List Output)
    → on_pipeline (arrive_all r.env r.arrivals) d ≡ (a, calls)
    → on_pipeline (ticks r) a ≡ (b, more)
    → reload_if r.reload b ≡ some (c, later)
    → poll d.loop r.polled ≡ true
    → run at (r ∷ rs) d ≡ behind calls (behind more (behind later (run at rs c)))
unfolding run
run_step at r rs d a b c calls more later arrived ticked reloaded polled =
    rw (arrived, polled, ticked, reloaded, run) refl

-- A round in which polling fails.
pub run_stop :
    (at : ℕ) (r : Round) (rs : List Round) (d a : Daemon) (calls : List Output)
    → on_pipeline (arrive_all r.env r.arrivals) d ≡ (a, calls)
    → poll d.loop r.polled ≡ false
    → run at (r ∷ rs) d ≡ behind calls (some (finish false at a))
unfolding run
run_stop at r rs d a calls arrived polled = rw (arrived, polled, run) refl

pub run_end : (at : ℕ) (d : Daemon) → run at [] d ≡ some (finish true at d)
unfolding run
run_end at d = refl
