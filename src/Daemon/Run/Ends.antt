-- ===== src/Daemon/Run/Ends.antt =====
-- A run comes to its end, through reloads.
use slurm_tracer.Common.{
  ℕ, ◌≡◌, ◌≢◌, refl, sym, ap, subst, ◌∙◌, inl, inr, List, [], ◌∷◌, ◌++◌, Option, none, some, Bool,
  true, false, arith, All, Bool-cases, Option-cases, map,
}
use slurm_tracer.Text.{Bytes}
use slurm_tracer.Config.File.{raises}
use slurm_tracer.Pipeline.{Pipeline, SinkCall, flush}
use slurm_tracer.EventLoop.{EventLoop, Polled, events, interrupted, failed, poll}
use slurm_tracer.Daemon.{Daemon}
use slurm_tracer.Daemon.Reload.{Surroundings}
use slurm_tracer.Daemon.Reload.Applied.{IsSettled}
use slurm_tracer.Daemon.Reload.Settled.{reload_config-IsSettled}
use slurm_tracer.Daemon.Run.{
  Round, Output, made, arrive_all, ticks, on_pipeline, reload_if, Ended, finish, behind, run,
}
use slurm_tracer.Daemon.Run.Step.{run_end, run_step, run_stop}

on_pipeline-IsSettled :
    (f : Pipeline → Pipeline × List SinkCall) (d : Daemon)
    → IsSettled d
    → IsSettled (on_pipeline f d).0
unfolding on_pipeline
on_pipeline-IsSettled f d h = elim (Option-cases d.pipeline) [
  | inl e ↦ rw (e, on_pipeline) h
  | inr (p, e) ↦
      rw (e, on_pipeline)
        (record {
          sorted_probes = h.sorted_probes;
          sorted_sinks = h.sorted_sinks;
          unique_probes = h.unique_probes;
          unique_sinks = h.unique_sinks;
          configured_probes = h.configured_probes;
          configured_sinks = h.configured_sinks;
        })
]

on_pipeline-config_path :
    (f : Pipeline → Pipeline × List SinkCall) (d : Daemon)
    → (on_pipeline f d).0.config_path ≡ d.config_path
unfolding on_pipeline
on_pipeline-config_path f d = elim (Option-cases d.pipeline) [
  | inl e ↦ rw (e, on_pipeline) refl
  | inr (p, e) ↦ rw (e, on_pipeline) refl
]

-- On the file at a path, a reload that is asked for finds the JSON parser throw at most a parse_error.
abbrev pub Readable : Bytes → Option Surroundings → Type 0
Readable path none = Unit
Readable path (some s) = s.files path ≢ raises

reload_if-IsSettled :
    (o : Option Surroundings) (d : Daemon)
    → IsSettled d
    → Readable d.config_path o
    → (e : Daemon) × (calls : List Output) × (reload_if o d ≡ some (e, calls))
      × IsSettled e
      × (e.config_path ≡ d.config_path)
unfolding reload_if
reload_if-IsSettled none d h k = (d, [], refl, h, refl)
reload_if-IsSettled (some s) d h k = elim (reload_config-IsSettled s d h) [
  | inl (_, bad, _) ↦ absurd (k bad)
  | inr (e, calls, runs, settled, _, path) ↦
      (e, map made calls, rw (runs, reload_if) refl, settled, path)
]

poll-true : (loop : EventLoop) (p : Polled) → p ≢ failed → poll loop p ≡ true
unfolding poll
poll-true loop (events n) h = refl
poll-true loop interrupted h = refl
poll-true loop failed h = absurd (h refl)

-- How a run is to end.
record Fine (rs : List Round) (o : Option Ended) : Type 0 where
  ended : Ended
  whole : o ≡ some ended
  settled : IsSettled ended.daemon
  succeeds : All (λ r. r.polled ≢ failed) rs → ended.success ≡ true

behind-Fine :
    (rs ts : List Round) (calls : List Output) (o : Option Ended)
    → (All (λ r. r.polled ≢ failed) rs → All (λ r. r.polled ≢ failed) ts)
    → Fine ts o
    → Fine rs (behind calls o)
behind-Fine rs ts calls o fewer h = record {
  ended = record e { calls = calls ++ e.calls };
  whole = ap (behind calls) h.whole;
  settled = h.settled;
  succeeds = λ k. h.succeeds (fewer k);
}
  where
    open h use {ended as e}

finish-IsSettled :
    (success : Bool) (at : ℕ) (d : Daemon) → IsSettled d → IsSettled (finish success at d).daemon
unfolding finish
finish-IsSettled success at d h = on_pipeline-IsSettled (λ p. flush p at) d h

run-Fine :
    (at : ℕ) (rs : List Round) (d : Daemon)
    → IsSettled d
    → (path : Bytes) → d.config_path ≡ path
    → All (λ r. Readable path r.reload) rs
    → Fine rs (run at rs d)
unfolding finish
run-Fine at [] d h path p k = record {
  ended = finish true at d;
  whole = run_end at d;
  settled = finish-IsSettled true at d h;
  succeeds = λ k. refl;
}
run-Fine at (r ∷ rs) d h path p k =
    let (a, calls) = on_pipeline (arrive_all r.env r.arrivals) d in
    let settled_a = on_pipeline-IsSettled (arrive_all r.env r.arrivals) d h in
    let (b, more) = on_pipeline (ticks r) a in
    let settled_b = on_pipeline-IsSettled (ticks r) a settled_a in
    let path_b : b.config_path ≡ path =
      on_pipeline-config_path (ticks r) a
      ∙ on_pipeline-config_path (arrive_all r.env r.arrivals) d
      ∙ p in
    let readable = subst (λ t. Readable t r.reload) (sym path_b) k.0 in
    let (c, later, reloaded, settled_c, path_c) =
      reload_if-IsSettled r.reload b settled_b readable in
    elim (Bool-cases (poll d.loop r.polled)) [
      | inr f ↦ record {
        ended = record (finish false at a) { calls = calls ++ (finish false at a).calls };
        whole = run_stop at r rs d a calls refl f;
        settled = finish-IsSettled false at a settled_a;
        succeeds = λ k. absurd (ground (arith, poll-true d.loop r.polled k.0, f));
      }
      | inl f ↦
          let rest = run-Fine at rs c settled_c path (path_c ∙ path_b) k.1 in
          let fine =
            behind-Fine (r ∷ rs) rs calls _ (λ k. k.1)
              (behind-Fine rs rs more _ (λ k. k) (behind-Fine rs rs later _ (λ k. k) rest)) in
          subst (Fine (r ∷ rs))
            (sym (run_step at r rs d a b c calls more later refl refl reloaded f)) fine
    ]

-- A run of a settled daemon, with any number of reloads, on whose file the JSON parser throws at most a
-- parse_error each time: it returns, and the daemon is settled again. No exception of the daemon's own lookups
-- leaves it, whatever a reload adds and removes; plugins and libbpf may refuse what they are asked for, but
-- throw nothing. The exit code is success if polling fails in no round.
pub run_ends :
    (at : ℕ) (rs : List Round) (d : Daemon)
    → IsSettled d
    → All (λ r. Readable d.config_path r.reload) rs
    → (ended : Ended) × (run at rs d ≡ some ended)
      × IsSettled ended.daemon
      × (All (λ r. r.polled ≢ failed) rs → ended.success ≡ true)
run_ends at rs d h k = (f.ended, f.whole, f.settled, f.succeeds)
  where
    f : Fine rs (run at rs d)
    f = run-Fine at rs d h d.config_path refl k
