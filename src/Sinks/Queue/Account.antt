-- ===== src/Sinks/Queue/Account.antt =====
-- Every accepted batch is counted, through every interleaving.
use mathlib.Core.Option.{some-injective}
use slurm_tracer.Record.{Record}
use slurm_tracer.Common.{
  ℕ, suc, ◌+◌, ◌≤◌, ◌<◌, ◌≡◌, refl, ap, subst, ◌∙◌, sym, true, false, List, [], ◌∷◌, Option, none,
  some, arith, length, length-append,
}
use slurm_tracer.Words.{u64}
use slurm_tracer.Sinks.Queue.{
  Batch, QueueSink, Worker, waiting, busy, counting, finished, new_sink, push_back, write,
  flush_returns, WorkerStep, takes, delivers, loses, counts, leaves, Step, works, writes, stops,
  Reach, here, next, WorkerReach, start, more,
}
use slurm_tracer.Sinks.Queue.Write.{evict_lem, excess, length-drop}

-- The batches that the worker holds.
abbrev pub held : Worker → ℕ
held waiting = 0
held (busy b) = 1
held counting = 1
held finished = 0

pub record Inv (s : QueueSink) : Type 0 where
  pub balance : s.written_batches + length s.queue + held s.worker ≡ s.queued_batches
  pub small : s.queued_batches < u64
  pub fits : length s.queue ≤ s.max_queued
  pub room : 0 < s.max_queued
  pub closed : s.worker ≡ finished → (s.queue ≡ []) × (s.stopping ≡ true)

pub new_sink-Inv : (max : ℕ) → 0 < max → Inv (new_sink max)
unfolding new_sink
new_sink-Inv max h = record {
  balance = omega arith;
  small = omega arith;
  fits = omega arith;
  room = h;
  closed = λ e. cc;
}

WorkerStep-Inv : {s t : QueueSink} → WorkerStep s t → Inv s → Inv t
WorkerStep-Inv (takes b rest w q e) i =
    let none_held = ap held w in
    let one_more = ap length q in
    rw e (record {
      balance = omega (arith, i.balance, none_held, one_more);
      small = i.small;
      fits = omega (arith, i.fits, one_more);
      room = i.room;
      closed = λ f. cc;
    })
WorkerStep-Inv (delivers b w e) i =
    let one_held = ap held w in
    rw e (record {
      balance = omega (arith, i.balance, one_held);
      small = i.small;
      fits = i.fits;
      room = i.room;
      closed = λ f. cc;
    })
WorkerStep-Inv (loses b w e) i =
    let one_held = ap held w in
    rw e (record {
      balance = omega (arith, i.balance, one_held);
      small = i.small;
      fits = i.fits;
      room = i.room;
      closed = λ f. cc;
    })
WorkerStep-Inv (counts w e) i =
    let one_held = ap held w in
    rw e (record {
      balance = omega (arith, i.balance, i.small, one_held);
      small = i.small;
      fits = i.fits;
      room = i.room;
      closed = λ f. cc;
    })
WorkerStep-Inv (leaves w q h e) i =
    let none_held = ap held w in
    rw e (record {
      balance = omega (arith, i.balance, none_held);
      small = i.small;
      fits = i.fits;
      room = i.room;
      closed = λ f. (q, h);
    })

abbrev pub written_by : Record → List Record → Option QueueSink → Option QueueSink
written_by r rs none = none
written_by r rs (some u) = some (push_back (r ∷ rs) u)

write-Inv :
    {s t : QueueSink} (b : Batch)
    → s.stopping ≡ false
    → suc s.queued_batches < u64
    → write s b ≡ some t
    → Inv s
    → Inv t
unfolding write
write-Inv {s} {t} [] running small e i = subst Inv (some-injective s t e) i
write-Inv {s} {t} (r ∷ rs) running small e i =
    let (u, evicted, v) = evict_lem s.queue s refl i.room in
    let at : push_back (r ∷ rs) u ≡ t =
      some-injective _ _ (sym (ap (written_by r rs) evicted) ∙ e) in
    let size = ap length v.queue ∙ length-drop (excess s.max_queued s.queue) s.queue in
    let grown = length-append u.queue ((r ∷ rs) ∷ []) in
    let same_held = ap held v.worker in
    subst Inv at (record {
      balance = omega (
        arith,
        i.balance,
        i.small,
        i.fits,
        i.room,
        v.queued,
        v.exact (omega (arith, i.balance, i.fits, i.small)),
        size,
        grown,
        same_held,
      );
      small = omega (arith, v.queued);
      fits = omega (arith, i.room, v.max_queued, size, grown);
      room = omega (arith, i.room, v.max_queued);
      closed = λ f. let stopped = (i.closed (sym v.worker ∙ f)).1 in cc;
    })

Step-Inv : {s t : QueueSink} → Step s t → Inv s → Inv t
Step-Inv (works w) i = WorkerStep-Inv w i
Step-Inv (writes b running small e) i = write-Inv b running small e i
Step-Inv (stops e) i = rw e (record {
  balance = i.balance;
  small = i.small;
  fits = i.fits;
  room = i.room;
  closed = λ f. ((i.closed f).0, refl);
})

-- Kept by every interleaving of the two threads: the batches counted as written, those that wait and
-- the one that the worker holds are together as many as the batches accepted; the queue is within its
-- bound, which leaves room for a batch; and the worker has left only when the sink is being destroyed
-- and nothing waits.
pub Reach-Inv : (s t : QueueSink) → Inv s → Reach s t → Inv t
Reach-Inv s t i here = i
Reach-Inv s t i (next {t = u} r st) = Step-Inv st (Reach-Inv s u i r)

WorkerReach-Inv : {s t : QueueSink} → Inv s → WorkerReach s t → Inv t
WorkerReach-Inv i start = i
WorkerReach-Inv i (more r st) = WorkerStep-Inv st (WorkerReach-Inv i r)

WorkerStep-queued : {s t : QueueSink} → WorkerStep s t → t.queued_batches ≡ s.queued_batches
WorkerStep-queued (takes b rest w q e) = ap (λ u. u.queued_batches) e
WorkerStep-queued (delivers b w e) = ap (λ u. u.queued_batches) e
WorkerStep-queued (loses b w e) = ap (λ u. u.queued_batches) e
WorkerStep-queued (counts w e) = ap (λ u. u.queued_batches) e
WorkerStep-queued (leaves w q h e) = ap (λ u. u.queued_batches) e

WorkerReach-queued : {s t : QueueSink} → WorkerReach s t → t.queued_batches ≡ s.queued_batches
WorkerReach-queued start = refl
WorkerReach-queued (more r st) = WorkerStep-queued st ∙ WorkerReach-queued r

empty_of_length : (q : List Batch) → length q ≡ 0 → q ≡ []
empty_of_length [] h = refl
empty_of_length (b ∷ q) h = absurd (omega arith)

-- From a state whose counts agree, for a flush by the thread that alone writes to the sink: it
-- returns, while the sink is not being destroyed, only when every batch that was accepted before is
-- out of the queue and out of the worker's hands.
pub flush_drains :
    (s t : QueueSink)
    → Inv s
    → WorkerReach s t
    → flush_returns s.queued_batches t ≡ true
    → t.stopping ≡ false
    → (t.queue ≡ []) × (held t.worker ≡ 0) × (t.written_batches ≡ s.queued_batches)
flush_drains s t i r returned running =
    let j = WorkerReach-Inv i r in
    let same = WorkerReach-queued r in
    let reached : s.queued_batches ≤ t.written_batches = ground arith in
    (
      empty_of_length t.queue (omega (arith, j.balance)),
      omega (arith, j.balance),
      omega (arith, j.balance),
    )
