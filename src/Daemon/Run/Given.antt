-- ===== src/Daemon/Run/Given.antt =====
-- What the sinks are given during a run.
use slurm_tracer.Common.{
  ℕ, ◌≡◌, refl, sym, ap, subst, ◌∙◌, inl, inr, List, [], ◌∷◌, ◌++◌, map, append-nil, append_assoc,
  Option, none, some, if◌then◌else◌, Bool-cases, Bool, true, false,
}
use slurm_tracer.Record.{Record}
use slurm_tracer.Text.{Bytes}
use slurm_tracer.Pipeline.{Pipeline, SinkCall, flush}
use slurm_tracer.Pipeline.Delivery.{Once, flush_empties, received, received-append, flush-Delivers}
use slurm_tracer.EventLoop.{EventLoop, poll}
use slurm_tracer.Daemon.{Daemon}
use slurm_tracer.Daemon.Reload.{Surroundings}
use slurm_tracer.Daemon.Run.Step.{run_end, run_step, run_stop}
use slurm_tracer.Daemon.Run.{
  Round, Output, piped, made, arrive_all, ticks, on_pipeline, reload_if, Ended, finish, behind, run,
}
use slurm_tracer.Daemon.Run.Labels.{emitters, labels, labels-append, labels-records}
use slurm_tracer.Daemon.Run.Delivered.{records, arrive_all-Delivers, ticks-Delivers}

-- The calls of the sinks that the pipeline makes.
unfoldable pub sink_calls : List Output → List SinkCall
sink_calls [] = []
sink_calls (piped c ∷ os) = c ∷ sink_calls os
sink_calls (made c ∷ os) = sink_calls os

sink_calls-append : (xs ys : List Output) → sink_calls (xs ++ ys) ≡ sink_calls xs ++ sink_calls ys
unfolding sink_calls
sink_calls-append [] ys = refl
sink_calls-append (piped c ∷ xs) ys = λ i. c ∷ sink_calls-append xs ys i
sink_calls-append (made c ∷ xs) ys = sink_calls-append xs ys

sink_calls-map : (cs : List SinkCall) → sink_calls (map piped cs) ≡ cs
unfolding sink_calls
sink_calls-map [] = refl
sink_calls-map (c ∷ cs) = λ i. c ∷ sink_calls-map cs i

-- The records of a run up to the round in which polling fails, if it does.
unfoldable pub run_records : EventLoop → List Round → Pipeline → List Record
run_records loop [] p = []
run_records loop (r ∷ rs) p =
    let q = (arrive_all r.env r.arrivals p).0 in
    let rest = run_records loop rs (ticks r q).0 in
    records r.env r.arrivals p ++ (if poll loop r.polled then rest else [])

abbrev pub Quiet : List Round → Type 0
Quiet [] = Unit
Quiet (r ∷ rs) = (r.reload ≡ none) × Quiet rs

-- A run that gave a sink some records, and left none waiting.
record Gives (s : ℕ) (given : List Record) (o : Option Ended) : Type 0 where
  ended : Ended
  whole : o ≡ some ended
  all : received s (sink_calls ended.calls) ≡ given

behind-Gives :
    (s : ℕ) (calls : List SinkCall) (given : List Record) (o : Option Ended)
    → Gives s given o
    → Gives s (received s calls ++ given) (behind (map piped calls) o)
behind-Gives s calls given o h = record {
  ended = record e { calls = map piped calls ++ e.calls };
  whole = ap (behind (map piped calls)) h.whole;
  all =
      ap (received s) (sink_calls-append (map piped calls) e.calls)
      ∙ received-append s (sink_calls (map piped calls)) (sink_calls e.calls)
      ∙ ap (λ t. received s t ++ received s (sink_calls e.calls)) (sink_calls-map calls)
      ∙ ap (λ t. received s calls ++ t) h.all;
}
  where
    open h use {ended as e}

finish-Gives :
    (s : ℕ) (success : Bool) (at : ℕ) (d : Daemon) (p : Pipeline)
    → d.pipeline ≡ some p
    → Once s p.sinks
    → Gives s p.batch (some (finish success at d))
unfolding finish on_pipeline
finish-Gives s success at d p e once =
    let h = flush-Delivers s p at once in
    let (q, calls) = flush p at in
    record {
      ended = finish success at d;
      whole = refl;
      all =
          rw (e, finish, on_pipeline)
            (ap (received s) (sink_calls-map calls)
              ∙ sym (append-nil (received s calls))
              ∙ ap (λ b. received s calls ++ b) (sym (flush_empties p at))
              ∙ h.nothing_lost);
    }

given_as : (s : ℕ) (xs ys : List Record) (o : Option Ended) → xs ≡ ys → Gives s xs o → Gives s ys o
given_as s xs ys o h g = subst (λ t. Gives s t o) h g

-- One round's part of what is given, and the rest.
regroup :
    (old new first second last given rest : List Record)
    → first ++ second ≡ old ++ new
    → given ++ last ≡ second
    → first ++ (given ++ (last ++ rest)) ≡ old ++ (new ++ rest)
regroup old new first second last given rest h k =
    ap (λ t. first ++ t) (sym (append_assoc given last rest) ∙ ap (λ t. t ++ rest) k)
    ∙ sym (append_assoc first second rest)
    ∙ ap (λ t. t ++ rest) h
    ∙ append_assoc old new rest

on_pipeline-some :
    (f : Pipeline → Pipeline × List SinkCall) (d : Daemon) (p : Pipeline)
    → d.pipeline ≡ some p
    → on_pipeline f d ≡ (record d { pipeline = some (f p).0 }, map piped (f p).1)
unfolding on_pipeline
on_pipeline-some f d p h = rw (h, on_pipeline) refl

reload_if_quiet : (o : Option Surroundings) (d : Daemon) → o ≡ none → reload_if o d ≡ some (d, [])
unfolding reload_if
reload_if_quiet o d h = ap (λ k. reload_if k d) h

behind_nothing :
    (s : ℕ) (xs : List Record) (o : Option Ended) → Gives s xs o → Gives s xs (behind [] o)
unfolding received
behind_nothing s xs o g = behind-Gives s [] xs o g

equal_runs : (s : ℕ) (xs : List Record) (o u : Option Ended) → o ≡ u → Gives s xs u → Gives s xs o
equal_runs s xs o u h g = subst (Gives s xs) (sym h) g

run-Gives :
    (s at : ℕ) (rs : List Round) (d : Daemon) (p : Pipeline)
    → d.pipeline ≡ some p
    → Once s p.sinks
    → Quiet rs
    → Gives s (p.batch ++ run_records d.loop rs p) (run at rs d)
unfolding run_records
run-Gives s at [] d p e once quiet =
    equal_runs s _ _ _ (run_end at d)
      (given_as s p.batch _ _ (sym (append-nil p.batch)) (finish-Gives s true at d p e once))
run-Gives s at (r ∷ rs) d p e once quiet =
    let h = arrive_all-Delivers s r.env r.arrivals p once in
    let (q, first) = arrive_all r.env r.arrivals p in
    let once_q = subst (Once s) (sym h.same_sinks) once in
    let k = ticks-Delivers s r q once_q in
    let (t, second) = ticks r q in
    let once_t = subst (Once s) (sym k.same_sinks) once_q in
    let a : Daemon = record d { pipeline = some q } in
    let b : Daemon = record d { pipeline = some t } in
    let arrived = on_pipeline-some (arrive_all r.env r.arrivals) d p e in
    let ticked = on_pipeline-some (ticks r) a q refl in
    let reloaded = reload_if_quiet r.reload b quiet.0 in
    let new = records r.env r.arrivals p in
    elim (Bool-cases (poll d.loop r.polled)) [
      | inr f ↦
          let here = behind-Gives s first q.batch _ (finish-Gives s false at a q refl once_q) in
          let given = h.nothing_lost ∙ ap (λ u. p.batch ++ u) (sym (append-nil new)) in
          rw f (
            equal_runs s _ _ _ (run_stop at r rs d a (map piped first) arrived f)
              (given_as s (received s first ++ q.batch) _ _ given here))
      | inl f ↦
          let rest = run_records d.loop rs t in
          let ih = run-Gives s at rs b t refl once_t quiet.1 in
          let later = behind_nothing s (t.batch ++ rest) (run at rs b) ih in
          let here = behind-Gives s first _ _ (behind-Gives s second _ _ later) in
          let given =
            regroup p.batch new (received s first) q.batch t.batch (received s second) rest
              h.nothing_lost k.nothing_lost in
          rw f (
            equal_runs s _ _ _
              (run_step at r rs d a b b (map piped first) (map piped second) [] arrived ticked
                reloaded f)
              (given_as s _ _ _ given here))
    ]

-- Up to the round in which polling fails, if it does.
abbrev pub run_emitters : EventLoop → List Round → List Bytes
run_emitters loop [] = []
run_emitters loop (r ∷ rs) =
    emitters r.arrivals ++ (if poll loop r.polled then run_emitters loop rs else [])

labels-run :
    (loop : EventLoop) (rs : List Round) (p : Pipeline)
    → labels (run_records loop rs p) ≡ run_emitters loop rs
unfolding run_records
labels-run loop [] p = refl
labels-run loop (r ∷ rs) p =
    let now = labels-records r.env r.arrivals p in
    let q = (arrive_all r.env r.arrivals p).0 in
    let later = labels-run loop rs (ticks r q).0 in
    elim (Bool-cases (poll loop r.polled)) [
      | inl e ↦ rw e (labels-append (records r.env r.arrivals p) _ ∙ (λ i. now i ++ later i))
      | inr e ↦ rw e (labels-append (records r.env r.arrivals p) [] ∙ (λ i. now i ++ []))
    ]

-- A run, in whose rounds no reload is asked for, of a daemon with a pipeline that holds a sink once, whatever
-- events arrive. It returns, and when it does the sink has been given, batch after batch, the records that
-- waited before the run, and then every record that a probe emitted up to the end, enriched, each once and in
-- the order in which they were emitted: none is left behind. Those bear, one by one, the ids under which the
-- probes run that emitted them, whatever the probes wrote there.
pub run_gives_all :
    (s at : ℕ) (rs : List Round) (d : Daemon) (p : Pipeline)
    → d.pipeline ≡ some p
    → Once s p.sinks
    → Quiet rs
    → (ended : Ended) × (run at rs d ≡ some ended)
      × (received s (sink_calls ended.calls) ≡ p.batch ++ run_records d.loop rs p)
      × (labels (run_records d.loop rs p) ≡ run_emitters d.loop rs)
run_gives_all s at rs d p e once quiet = (g.ended, g.whole, g.all, labels-run d.loop rs p)
  where
    g : Gives s (p.batch ++ run_records d.loop rs p) (run at rs d)
    g = run-Gives s at rs d p e once quiet
