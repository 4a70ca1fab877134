-- ===== src/Pipeline/Delivery.antt =====
-- Every record that is emitted is delivered once to each sink, in order.
use slurm_tracer.Common.{
  ℕ, ◌≡◌, ◌≢◌, refl, sym, ap, subst, ◌∙◌, ◌⊎◌, inl, inr, List, [], ◌∷◌, ◌++◌, map, append-nil,
  append_assoc, arith, ◌==◌, ==_iff, leb, ltb, ◌+◌, if◌then◌else◌, length, Bool-cases, append_chain,
}
use slurm_tracer.Record.{Record}
use slurm_tracer.Pipeline.Enrich.{enrich-cases}
use slurm_tracer.Pipeline.{
  Env, Pipeline, SinkCall, write, drain, enrich, push, emit, tick, flush, ship, ship_batch,
  write_all, interval_ns,
}

-- The calls that the daemon makes of the pipeline between two changes of the sinks.
pub data Call : Type 0 where
  emits : Env → Record → Call
  ticks : ℕ → Call
  flushes : ℕ → Call

unfoldable pub step : Pipeline → Call → Pipeline × List SinkCall
step p (emits env r) = emit env p r
step p (ticks now) = tick p now
step p (flushes now) = flush p now

unfoldable pub run : Pipeline → List Call → Pipeline × List SinkCall
unfolding step
run p [] = (p, [])
run p (c ∷ cs) = let (q, calls) = step p c in let (last, more) = run q cs in (last, calls ++ more)

-- The record that a call adds, as it stands after enrichment.
abbrev pub added : Pipeline → Call → List Record
added p (emits env r) = (enrich env p r).0 ∷ []
added p (ticks now) = []
added p (flushes now) = []

unfoldable pub all_added : Pipeline → List Call → List Record
all_added p [] = []
all_added p (c ∷ cs) = added p c ++ all_added (step p c).0 cs

-- What one sink is given, one batch after the other.
unfoldable pub received : ℕ → List SinkCall → List Record
received s [] = []
received s (write t batch ∷ calls) = if t == s then batch ++ received s calls else received s calls
received s (drain t ∷ calls) = received s calls

pub received-append :
    (s : ℕ) (xs ys : List SinkCall) → received s (xs ++ ys) ≡ received s xs ++ received s ys
unfolding received
received-append s [] ys = refl
received-append s (write t batch ∷ xs) ys = elim (Bool-cases (t == s)) [
  | inl e ↦
      rw (e, received-append s xs ys) (sym (append_assoc batch (received s xs) (received s ys)))
  | inr e ↦ rw (e, received-append s xs ys)
]
received-append s (drain t ∷ xs) ys = received-append s xs ys

abbrev Absent : ℕ → List ℕ → Type 0
Absent s [] = Unit
Absent s (t ∷ ts) = (t ≢ s) × Absent s ts

-- The sink is in the list, once.
abbrev pub Once : ℕ → List ℕ → Type 0
Once s [] = ⊥
Once s (t ∷ ts) = ((t ≡ s) × Absent s ts) ⊎ ((t ≢ s) × Once s ts)

received-write_all-Absent :
    (s : ℕ) (sinks : List ℕ) (batch : List Record)
    → Absent s sinks
    → received s (write_all sinks batch) ≡ []
unfolding received
received-write_all-Absent s [] batch h = refl
received-write_all-Absent s (t ∷ ts) batch h =
    ground (arith, received-write_all-Absent s ts batch h.1)

received-write_all :
    (s : ℕ) (sinks : List ℕ) (batch : List Record)
    → Once s sinks
    → received s (write_all sinks batch) ≡ batch
unfolding received
received-write_all s [] batch h = absurd h
received-write_all s (t ∷ ts) batch (inl (e, h)) =
    rw ((==_iff t s).1 e, received-write_all-Absent s ts batch h) (append-nil batch)
received-write_all s (t ∷ ts) batch (inr (e, h)) = ground (arith, received-write_all s ts batch h)

received-drain : (s : ℕ) (sinks : List ℕ) → received s (map drain sinks) ≡ []
unfolding received
received-drain s [] = refl
received-drain s (t ∷ ts) = received-drain s ts

-- Of these three facts a call keeps the first, and the others say that nothing is lost.
pub record Delivers (s : ℕ) (sinks : List ℕ) (records : List Record)
    (out : Pipeline × List SinkCall) : Type 0 where
  pub same_sinks : out.0.sinks ≡ sinks
  pub nothing_lost : received s out.1 ++ out.0.batch ≡ records

ship_batch-Delivers :
    (s : ℕ) (batch : List Record) (p : Pipeline)
    → p.batch ≡ batch
    → Once s p.sinks
    → Delivers s p.sinks batch (ship_batch batch p)
unfolding ship_batch received
ship_batch-Delivers s [] p e once = record { same_sinks = refl; nothing_lost = e }
ship_batch-Delivers s (r ∷ rs) p e once = record {
  same_sinks = refl;
  nothing_lost = append-nil _ ∙ received-write_all s p.sinks (r ∷ rs) once;
}

ship-Delivers : (s : ℕ) (p : Pipeline) → Once s p.sinks → Delivers s p.sinks p.batch (ship p)
unfolding ship
ship-Delivers s p once = ship_batch-Delivers s p.batch p refl once

pub enrich_keeps :
    (env : Env) (p : Pipeline) (r : Record)
    → ((enrich env p r).1.sinks ≡ p.sinks)
      × ((enrich env p r).1.batch ≡ p.batch)
      × ((enrich env p r).1.opt ≡ p.opt)
enrich_keeps env p r =
    enrich-cases (λ q. (q.1.sinks ≡ p.sinks) × (q.1.batch ≡ p.batch) × (q.1.opt ≡ p.opt)) env p r
      (λ attr e. (refl, refl, refl)) (λ e. (refl, refl, refl))

pub emit-Delivers :
    (s : ℕ) (env : Env) (p : Pipeline) (r : Record)
    → Once s p.sinks
    → Delivers s p.sinks (p.batch ++ (enrich env p r).0 ∷ []) (emit env p r)
unfolding emit push received
emit-Delivers s env p r once =
    let kept = enrich_keeps env p r in
    let q = push (enrich env p r).0 (enrich env p r).1 in
    let grown = ap (λ b. b ++ (enrich env p r).0 ∷ []) kept.1 in
    let d = ship-Delivers s q (subst (Once s) (sym kept.0) once) in
    elim (Bool-cases (leb q.opt.batch_size (length q.batch))) [
      | inl full ↦
          rw (full, emit)
            (record { same_sinks = d.same_sinks ∙ kept.0; nothing_lost = d.nothing_lost ∙ grown })
      | inr room ↦ rw (room, emit) (record { same_sinks = kept.0; nothing_lost = grown })
    ]

pub tick-Delivers :
    (s : ℕ) (p : Pipeline) (now : ℕ) → Once s p.sinks → Delivers s p.sinks p.batch (tick p now)
unfolding tick received
tick-Delivers s p now once =
    let d = ship-Delivers s p once in
    elim (Bool-cases (ltb now (p.last_flush + interval_ns p.opt))) [
      | inl early ↦ rw (early, tick) (record { same_sinks = refl; nothing_lost = refl })
      | inr due ↦
          rw (due, tick) (record { same_sinks = d.same_sinks; nothing_lost = d.nothing_lost })
    ]

pub flush-Delivers :
    (s : ℕ) (p : Pipeline) (now : ℕ) → Once s p.sinks → Delivers s p.sinks p.batch (flush p now)
unfolding flush
flush-Delivers s p now once =
    let d = ship-Delivers s p once in
    record {
      same_sinks = d.same_sinks;
      nothing_lost = simp (received-append, received-drain, append-nil) d.nothing_lost;
    }

ship_batch_empties :
    (batch : List Record) (p : Pipeline) → p.batch ≡ batch → (ship_batch batch p).0.batch ≡ []
unfolding ship_batch
ship_batch_empties [] p e = e
ship_batch_empties (r ∷ rs) p e = refl

pub flush_empties : (p : Pipeline) (now : ℕ) → (flush p now).0.batch ≡ []
unfolding flush ship
flush_empties p now = ship_batch_empties p.batch p refl

step-Delivers :
    (s : ℕ) (p : Pipeline) (c : Call)
    → Once s p.sinks
    → Delivers s p.sinks (p.batch ++ added p c) (step p c)
unfolding step
step-Delivers s p (emits env r) once = emit-Delivers s env p r once
step-Delivers s p (ticks now) once = rw append-nil (tick-Delivers s p now once)
step-Delivers s p (flushes now) once = rw append-nil (flush-Delivers s p now once)

-- For a sink that is listed once, through any calls between two changes of the sinks: what the sink
-- has been given, batch after batch, and then the records that still wait, are the records that waited
-- before and then those that were emitted, each once and in the order in which they were emitted.
pub run-delivers :
    (s : ℕ) (p : Pipeline) (cs : List Call)
    → Once s p.sinks
    → received s (run p cs).1 ++ (run p cs).0.batch ≡ p.batch ++ all_added p cs
unfolding run all_added received
run-delivers s p [] once = sym (append-nil p.batch)
run-delivers s p (c ∷ cs) once =
    let d = step-Delivers s p c once in
    let q = (step p c).0 in
    let ih = run-delivers s q cs (subst (Once s) (sym d.same_sinks) once) in
    ap (λ t. t ++ (run q cs).0.batch) (received-append s (step p c).1 (run q cs).1)
    ∙ append_chain p.batch q.batch (received s (step p c).1) (received s (run q cs).1)
        (run q cs).0.batch (added p c) (all_added q cs) d.nothing_lost ih
