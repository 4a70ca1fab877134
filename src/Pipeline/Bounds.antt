-- ===== src/Pipeline/Bounds.antt =====
-- How many records wait, and when they are shipped.
use slurm_tracer.Common.{
  ℕ, ◌+◌, ◌≤◌, ◌<◌, ◌≡◌, ◌≢◌, refl, ap, ◌∙◌, inl, inr, List, [], ◌∷◌, map, arith, leb, ltb, length,
  length-append, All, All-append, Bool-cases, lt→ltb,
}
use slurm_tracer.Record.{Record}
use slurm_tracer.Pipeline.Delivery.{Call, emits, ticks, flushes, step, run, enrich_keeps}
use slurm_tracer.Pipeline.{
  Env, Pipeline, SinkCall, write, drain, enrich, push, emit, tick, flush, ship, ship_batch,
  write_all, interval_ns,
}

-- A batch that a sink is given has a record, and no more than fit in a batch.
abbrev pub Fits : ℕ → SinkCall → Type 0
Fits size (write s batch) = (batch ≢ []) × (length batch ≤ size)
Fits size (drain s) = Unit

-- Fewer records wait than fit in a batch, and all batches fit.
pub record IsBounded (size : ℕ) (out : Pipeline × List SinkCall) : Type 0 where
  pub same_size : out.0.opt.batch_size ≡ size
  pub waiting : length out.0.batch < size
  pub fits : All (Fits size) out.1

write_all-Fits :
    (size : ℕ) (sinks : List ℕ) (r : Record) (rs : List Record)
    → length (r ∷ rs) ≤ size
    → All (Fits size) (write_all sinks (r ∷ rs))
write_all-Fits size [] r rs h = tt
write_all-Fits size (s ∷ ss) r rs h = ((λ e. cc, h), write_all-Fits size ss r rs h)

drain-Fits : (size : ℕ) (sinks : List ℕ) → All (Fits size) (map drain sinks)
drain-Fits size [] = tt
drain-Fits size (s ∷ ss) = (tt, drain-Fits size ss)

ship_batch-IsBounded :
    (size : ℕ) (batch : List Record) (p : Pipeline)
    → p.batch ≡ batch
    → p.opt.batch_size ≡ size
    → 0 < size
    → length batch ≤ size
    → IsBounded size (ship_batch batch p)
unfolding ship_batch
ship_batch-IsBounded size [] p e same h k = record { same_size = same; waiting = rw e h; fits = tt }
ship_batch-IsBounded size (r ∷ rs) p e same h k = record {
  same_size = same;
  waiting = h;
  fits = write_all-Fits size p.sinks r rs k;
}

ship-IsBounded :
    (size : ℕ) (p : Pipeline)
    → p.opt.batch_size ≡ size
    → 0 < size
    → length p.batch ≤ size
    → IsBounded size (ship p)
unfolding ship
ship-IsBounded size p = ship_batch-IsBounded size p.batch p refl

emit-IsBounded :
    (size : ℕ) (env : Env) (p : Pipeline) (r : Record)
    → p.opt.batch_size ≡ size
    → length p.batch < size
    → IsBounded size (emit env p r)
unfolding emit push
emit-IsBounded size env p r same h =
    let kept = enrich_keeps env p r in
    let q = push (enrich env p r).0 (enrich env p r).1 in
    let q_size : q.opt.batch_size ≡ size = ap (λ o. o.batch_size) kept.2 ∙ same in
    let q_length =
      length-append (enrich env p r).1.batch ((enrich env p r).0 ∷ [])
      ∙ ap (λ b. length b + 1) kept.1 in
    elim (Bool-cases (leb q.opt.batch_size (length q.batch))) [
      | inl full ↦
          rw (full, emit) (ship-IsBounded size q q_size (omega arith) (omega (arith, q_length)))
      | inr room ↦
          rw (room, emit)
            (record { same_size = q_size; waiting = ground (arith, q_length, q_size); fits = tt })
    ]

tick-IsBounded :
    (size : ℕ) (p : Pipeline) (now : ℕ)
    → p.opt.batch_size ≡ size
    → length p.batch < size
    → IsBounded size (tick p now)
unfolding tick
tick-IsBounded size p now same h =
    let b = ship-IsBounded size p same (omega arith) (omega arith) in
    elim (Bool-cases (ltb now (p.last_flush + interval_ns p.opt))) [
      | inl early ↦ rw (early, tick) (record { same_size = same; waiting = h; fits = tt })
      | inr due ↦
          rw (due, tick) (record { same_size = b.same_size; waiting = b.waiting; fits = b.fits })
    ]

flush-IsBounded :
    (size : ℕ) (p : Pipeline) (now : ℕ)
    → p.opt.batch_size ≡ size
    → length p.batch < size
    → IsBounded size (flush p now)
unfolding flush
flush-IsBounded size p now same h =
    let b = ship-IsBounded size p same (omega arith) (omega arith) in
    record {
      same_size = b.same_size;
      waiting = b.waiting;
      fits = All-append (Fits size) (ship p).1 _ b.fits (drain-Fits size _);
    }

step-IsBounded :
    (size : ℕ) (p : Pipeline) (c : Call)
    → p.opt.batch_size ≡ size
    → length p.batch < size
    → IsBounded size (step p c)
unfolding step
step-IsBounded size p (emits env r) = emit-IsBounded size env p r
step-IsBounded size p (ticks now) = tick-IsBounded size p now
step-IsBounded size p (flushes now) = flush-IsBounded size p now

-- From a state in which fewer records wait than fit in a batch, through any calls: fewer wait at the
-- end too, and every batch that a sink was given holds at least one record and no more than fit.
pub run-IsBounded :
    (size : ℕ) (p : Pipeline) (cs : List Call)
    → p.opt.batch_size ≡ size
    → length p.batch < size
    → IsBounded size (run p cs)
unfolding run
run-IsBounded size p [] same h = record { same_size = same; waiting = h; fits = tt }
run-IsBounded size p (c ∷ cs) same h =
    let b = step-IsBounded size p c same h in
    let rest = run-IsBounded size (step p c).0 cs b.same_size b.waiting in
    record {
      same_size = rest.same_size;
      waiting = rest.waiting;
      fits = All-append (Fits size) (step p c).1 (run (step p c).0 cs).1 b.fits rest.fits;
    }

ship_batch-empties :
    (batch : List Record) (p : Pipeline) → p.batch ≡ batch → (ship_batch batch p).0.batch ≡ []
unfolding ship_batch
ship_batch-empties [] p e = e
ship_batch-empties (r ∷ rs) p e = refl

ship-empties : (p : Pipeline) → (ship p).0.batch ≡ []
unfolding ship
ship-empties p = ship_batch-empties p.batch p refl

-- A tick before the interval is over does nothing; one from then on leaves no record waiting, starts
-- the next interval, and makes the calls that shipping makes.
pub tick_when :
    (p : Pipeline) (now : ℕ)
    → (now < p.last_flush + interval_ns p.opt → tick p now ≡ (p, []))
      × (p.last_flush + interval_ns p.opt ≤ now
          → ((tick p now).0.batch ≡ [])
            × ((tick p now).0.last_flush ≡ now)
            × ((tick p now).1 ≡ (ship p).1))
unfolding tick
tick_when p now =
    let empties = ship-empties p in
    (λ h. rw (lt→ltb now (p.last_flush + interval_ns p.opt) h, tick), λ h. ground arith)
