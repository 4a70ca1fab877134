-- ===== src/Daemon/Run.antt =====
-- `run` of Daemon (src/core/daemon.cpp). The loop takes one round after the other until the stop signal is
-- seen, which is the end of the list of rounds. What `report_shutdown` logs is not modelled.
pub mod Step
pub mod Ends
pub mod Delivered
pub mod Labels
pub mod Given
pub mod Tests
use slurm_tracer.Common.{
  ℕ, Bool, true, false, not, List, [], ◌∷◌, ◌++◌, map, Option, none, some, if◌then◌else◌,
}
use slurm_tracer.Text.{Bytes}
use slurm_tracer.Record.{Record}
use slurm_tracer.Clock.{Clocks}
use slurm_tracer.Attribution.Resolver
use slurm_tracer.Attribution.Watcher
use slurm_tracer.Attribution.Watcher.{CgroupEvent}
use slurm_tracer.Pipeline.{Env, Pipeline, SinkCall, emit, tick, flush}
use slurm_tracer.EventLoop.{Polled, poll}
use slurm_tracer.Daemon.{Daemon, Call, relabel}
use slurm_tracer.Daemon.Reload.{Surroundings, reload_config}

-- What a callback of the event loop does: the watcher gets an event of some length, or a probe that runs
-- under an id emits a record.
pub data Arrival : Type 0 where
  lifecycle : ℕ → CgroupEvent → Arrival
  emitted : Bytes → Record → Arrival

-- One round: what polling does and returns, the clocks afterwards, the time of steady_clock, and whether a
-- reload has been asked for, with what the surroundings do during it.
pub record Round : Type 0 where
  pub env : Env
  pub arrivals : List Arrival
  pub polled : Polled
  pub clocks : Clocks
  pub now : ℕ
  pub reload : Option Surroundings

-- A call of the pipeline, or of the daemon itself.
pub data Output : Type 0 where
  piped : SinkCall → Output
  made : Call → Output

unfoldable pub arrive : Env → Arrival → Pipeline → Pipeline × List SinkCall
arrive env (lifecycle len e) p = (record p { resolver = Watcher.on_event p.resolver len e }, [])
arrive env (emitted id r) p = emit env p (relabel id r)

unfoldable pub arrive_all : Env → List Arrival → Pipeline → Pipeline × List SinkCall
unfolding arrive
arrive_all env [] p = (p, [])
arrive_all env (a ∷ rest) p =
    let (q, calls) = arrive env a p in
    let (last, more) = arrive_all env rest q in (last, calls ++ more)

unfoldable pub ticks : Round → Pipeline → Pipeline × List SinkCall
ticks r p = tick (record p { resolver = Resolver.tick p.resolver r.clocks }) r.now

-- There is a pipeline once the daemon has started, and it runs only then.
unfoldable pub on_pipeline : (Pipeline → Pipeline × List SinkCall) → Daemon → Daemon × List Output
on_pipeline f d = elim d.pipeline [
  | none ↦ (d, [])
  | some p ↦ let (q, calls) = f p in (record d { pipeline = some q }, map piped calls)
]

-- `none` is an exception out of the reload.
unfoldable pub reload_if : Option Surroundings → Daemon → Option (Daemon × List Output)
reload_if none d = some (d, [])
reload_if (some s) d = elim (reload_config s d) [
  | none ↦ none
  | some (e, calls) ↦ some (e, map made calls)
]

-- The exit code's success, the daemon, and all calls.
pub record Ended : Type 0 where
  pub success : Bool
  pub daemon : Daemon
  pub calls : List Output

-- After the loop, at a time of steady_clock.
unfoldable pub finish : Bool → ℕ → Daemon → Ended
unfolding on_pipeline
finish success at d =
    let (e, calls) = on_pipeline (λ p. flush p at) d in
    record { success = success; daemon = e; calls = calls }

abbrev pub behind : List Output → Option Ended → Option Ended
behind calls none = none
behind calls (some e) = some (record e { calls = calls ++ more })
  where
    open e use {calls as more}

unfoldable pub run : ℕ → List Round → Daemon → Option Ended
unfolding on_pipeline reload_if finish
run at [] d = some (finish true at d)
run at (r ∷ rs) d =
    let (a, calls) = on_pipeline (arrive_all r.env r.arrivals) d in
    let (b, more) = on_pipeline (ticks r) a in
    let rest : Option Ended = elim (reload_if r.reload b) [
      | none ↦ none
      | some (c, later) ↦ behind later (run at rs c)
    ] in
    if poll d.loop r.polled
    then behind calls (behind more rest)
    else behind calls (some (finish false at a))
