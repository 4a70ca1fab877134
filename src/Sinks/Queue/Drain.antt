-- ===== src/Sinks/Queue/Drain.antt =====
-- A sink that is being destroyed comes to an end, with everything out.
use slurm_tracer.Common.{
  ℕ, suc, ◌+◌, ◌*◌, ◌≤◌, ◌≡◌, ◌⊎◌, inl, inr, refl, ap, ◌∙◌, sym, subst, true, List, [], ◌∷◌, ◌++◌,
  append_assoc, append-nil, length, length-append, arith,
}
use slurm_tracer.Sinks.Queue.{
  Batch, QueueSink, Worker, waiting, busy, counting, finished, take, deliver, count_written, leave,
  WorkerStep, takes, delivers, loses, counts, leaves,
}
use slurm_tracer.Sinks.Queue.Order.{Sub, skip, Sub-refl, Sub-trans, Sub-append, line, line_at}

-- The batches that a step loses.
abbrev pub lost_by : {s t : QueueSink} → WorkerStep s t → ℕ
lost_by (takes b rest w q e) = 0
lost_by (delivers b w e) = 0
lost_by (loses b w e) = 1
lost_by (counts w e) = 0
lost_by (leaves w q h e) = 0

-- Some steps of the worker, of which some lose a batch.
pub data WorkerRun (s : QueueSink) : ℕ → ℕ → QueueSink → Type 0 where
  begins : WorkerRun s 0 0 s
  goes_on :
      {steps lost : ℕ} {t u : QueueSink}
      → WorkerRun s steps lost t
      → (st : WorkerStep t u) → WorkerRun s (suc steps) (lost_by st + lost) u

-- The steps that are left to a worker, for what it does now and for what waits.
abbrev steps_of : Worker → ℕ
steps_of waiting = 1
steps_of (busy b) = 3
steps_of counting = 2
steps_of finished = 0

abbrev pub steps_left : QueueSink → ℕ
steps_left s = steps_of s.worker + 3 * length s.queue

steps_left_at :
    (s : QueueSink) {w : Worker} {q : List Batch}
    → s.worker ≡ w
    → s.queue ≡ q
    → steps_left s ≡ steps_of w + 3 * length q
steps_left_at s {w} h k =
    ap (λ u. steps_of u + 3 * length s.queue) h
    ∙ ap (λ (u : List Batch). steps_of w + 3 * length u) k

-- From one state to the next.
record Advances (s t : QueueSink) (lost : ℕ) : Type 0 where
  stopping : t.stopping ≡ s.stopping
  closed : t.worker ≡ finished → t.queue ≡ []
  fewer : suc (steps_left t) ≤ steps_left s
  order : Sub (line t) (line s)
  count : lost + length (line t) ≡ length (line s)

-- A step that only moves a batch along the line.
same_line : (s t : QueueSink) → line t ≡ line s → Sub (line t) (line s)
same_line s t e = subst (λ l. Sub l (line s)) (sym e) (Sub-refl (line s))

WorkerStep-Advances : {s t : QueueSink} (st : WorkerStep s t) → Advances s t (lost_by st)
WorkerStep-Advances {s = s} (takes b rest w q e) =
    let is : line (take b rest s) ≡ line s = sym (line_at s w q) in
    subst (λ t. Advances s t 0) (sym e)
      (record {
        stopping = refl;
        closed = λ f. cc;
        fewer = omega (arith, steps_left_at s w q);
        order = same_line s (take b rest s) is;
        count = omega (arith, ap length is);
      })
WorkerStep-Advances {s = s} (delivers b w e) =
    let is : line (deliver b s) ≡ line s =
      append_assoc s.sent (b ∷ []) s.queue ∙ sym (line_at s w refl) in
    subst (λ t. Advances s t 0) (sym e)
      (record {
        stopping = refl;
        closed = λ f. cc;
        fewer = omega (arith, steps_left_at s w refl);
        order = same_line s (deliver b s) is;
        count = omega (arith, ap length is);
      })
WorkerStep-Advances {s = s} (loses b w e) =
    let before = line_at s w refl in
    subst (λ t. Advances s t 1) (sym e)
      (record {
        stopping = refl;
        closed = λ f. cc;
        fewer = omega (arith, steps_left_at s w refl);
        order =
            subst (Sub (s.sent ++ s.queue)) (sym before)
              (Sub-append s.sent (skip (Sub-refl s.queue)));
        count = omega (
          arith,
          ap length before,
          length-append s.sent s.queue,
          length-append s.sent (b ∷ s.queue),
        );
      })
WorkerStep-Advances {s = s} (counts w e) =
    let is : line (count_written s) ≡ line s = sym (line_at s w refl) in
    subst (λ t. Advances s t 0) (sym e)
      (record {
        stopping = refl;
        closed = λ f. cc;
        fewer = omega (arith, steps_left_at s w refl);
        order = same_line s (count_written s) is;
        count = omega (arith, ap length is);
      })
WorkerStep-Advances {s = s} (leaves w q h e) =
    let is : line (leave s) ≡ line s = sym (line_at s w refl) in
    subst (λ t. Advances s t 0) (sym e)
      (record {
        stopping = refl;
        closed = λ f. q;
        fewer = omega (arith, steps_left_at s w refl);
        order = same_line s (leave s) is;
        count = omega (arith, ap length is);
      })

-- From the start of a run to a state of it.
record Drained (s t : QueueSink) (steps lost : ℕ) : Type 0 where
  stopping : t.stopping ≡ s.stopping
  closed : t.worker ≡ finished → t.queue ≡ []
  spent : steps + steps_left t ≤ steps_left s
  order : Sub (line t) (line s)
  count : lost + length (line t) ≡ length (line s)

WorkerRun-Drained :
    {s t : QueueSink} {steps lost : ℕ}
    → (s.worker ≡ finished → s.queue ≡ [])
    → WorkerRun s steps lost t
    → Drained s t steps lost
WorkerRun-Drained {s = s} closed begins = record {
  stopping = refl;
  closed = closed;
  spent = omega arith;
  order = Sub-refl (line s);
  count = omega arith;
}
WorkerRun-Drained closed (goes_on r st) =
    let before = WorkerRun-Drained closed r in
    let now = WorkerStep-Advances st in
    record {
      stopping = now.stopping ∙ before.stopping;
      closed = now.closed;
      spent = omega (arith, before.spent, now.fewer);
      order = Sub-trans now.order before.order;
      count = omega (arith, before.count, now.count);
    }

-- A worker whose sink is being destroyed always has a step to take, until it has left.
goes :
    (w : Worker) (q : List Batch) (t : QueueSink)
    → t.worker ≡ w
    → t.queue ≡ q
    → t.stopping ≡ true
    → (t.worker ≡ finished) ⊎ ((u : QueueSink) × WorkerStep t u)
goes waiting [] t w q h = inr (leave t, leaves w q h refl)
goes waiting (b ∷ rest) t w q h = inr (take b rest t, takes b rest w q refl)
goes (busy b) q t w e h = inr (deliver b t, delivers b w refl)
goes counting q t w e h = inr (count_written t, counts w refl)
goes finished q t w e h = inl w

-- A sink that is being destroyed, in which a worker that has left has left nothing waiting, and any steps of
-- its worker, which are all that such a sink does, whether posts fail or not. They are no more than
-- `steps_left`, three for each batch that waits besides those for what the worker does now, and as long as the
-- worker has not left it has a further step: so, each step being one that ends, it leaves and the destructor's
-- join returns. When it has left, nothing waits, and what is out is what was out, what the worker held and
-- what waited, in order, less the batches that were lost: as many as steps lost one.
pub drains :
    (s t : QueueSink) (steps lost : ℕ)
    → (s.worker ≡ finished → s.queue ≡ [])
    → s.stopping ≡ true
    → WorkerRun s steps lost t
    → (steps ≤ steps_left s)
      × (((u : QueueSink) × WorkerStep t u)
          ⊎ ((t.worker ≡ finished)
              × (t.queue ≡ [])
              × Sub t.sent (line s)
              × (lost + length t.sent ≡ length (line s))))
drains s t steps lost closed h r =
    let d = WorkerRun-Drained closed r in
    let bounded : steps ≤ steps_left s = omega (arith, d.spent) in
    elim (goes t.worker t.queue t refl refl (d.stopping ∙ h)) [
      | inr more ↦ (bounded, inl more)
      | inl left ↦
          let is : line t ≡ t.sent = line_at t left (d.closed left) ∙ append-nil t.sent in
          (
            bounded,
            inr (
              left,
              d.closed left,
              subst (λ l. Sub l (line s)) is d.order,
              ap (λ l. lost + length l) (sym is) ∙ d.count,
            ),
          )
    ]
