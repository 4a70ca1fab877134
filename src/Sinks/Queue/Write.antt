-- ===== src/Sinks/Queue/Write.antt =====
-- What `write` does to the queue.
use slurm_tracer.Common.{
  ℕ, zero, suc, ◌+◌, ◌-◌, ◌%◌, ◌≤◌, ◌<◌, ◌≡◌, ◌≢◌, refl, ap, ◌∙◌, List, [], ◌∷◌, ◌++◌, none, some,
  arith, leb, length, length-append, drop, Bool-cases, inl, inr,
}
use slurm_tracer.Words.{u64, incr64}
use slurm_tracer.Sinks.Queue.{Batch, QueueSink, evict, evict_one, push_back, write}

-- What the loop does, in one step: the sink with the oldest `n` batches dropped and counted.
pub record IsEvicted (n : ℕ) (q : List Batch) (s t : QueueSink) : Type 0 where
  pub queue : t.queue ≡ drop n q
  pub written : t.written_batches % u64 ≡ (s.written_batches + n) % u64
  pub exact : s.written_batches + n < u64 → t.written_batches ≡ s.written_batches + n
  pub dropped : t.dropped % u64 ≡ (s.dropped + n) % u64
  pub queued : t.queued_batches ≡ s.queued_batches
  pub max_queued : t.max_queued ≡ s.max_queued
  pub stopping : t.stopping ≡ s.stopping
  pub worker : t.worker ≡ s.worker
  pub sent : t.sent ≡ s.sent
  pub accepted : t.accepted ≡ s.accepted

abbrev pub excess : ℕ → List Batch → ℕ
excess max q = length q + 1 - max

pub evict_lem :
    (q : List Batch) (s : QueueSink)
    → s.queue ≡ q
    → 0 < s.max_queued
    → (t : QueueSink) × (evict q s ≡ some t) × IsEvicted (excess s.max_queued q) q s t
unfolding evict
evict_lem [] s e h = (s, ground arith, ground arith)
evict_lem (b ∷ rest) s e h = elim (Bool-cases (leb s.max_queued (length (b ∷ rest)))) [
  | inl full ↦
      let (t, same, ih) = evict_lem rest (evict_one rest s) refl h in
      let more : excess s.max_queued (b ∷ rest) ≡ suc (excess s.max_queued rest) = ground arith in
      (
        t,
        rw (full, evict) same,
        rw more (record {
          queue = ih.queue;
          written = omega (arith, ih.written);
          exact = λ k. omega (arith, ih.exact (omega arith));
          dropped = omega (arith, ih.dropped);
          queued = ih.queued;
          max_queued = ih.max_queued;
          stopping = ih.stopping;
          worker = ih.worker;
          sent = ih.sent;
          accepted = ih.accepted;
        }),
      )
  | inr room ↦
      let fits : excess s.max_queued (b ∷ rest) ≡ 0 = ground arith in
      (
        s,
        rw (room, evict),
        rw fits (record {
          queue = e;
          written = omega arith;
          exact = λ k. omega arith;
          dropped = omega arith;
          queued = refl;
          max_queued = refl;
          stopping = refl;
          worker = refl;
          sent = refl;
          accepted = refl;
        }),
      )
]

evict_undefined : (q : List Batch) (s : QueueSink) → s.max_queued ≡ 0 → evict q s ≡ none
unfolding evict
evict_undefined [] s h = ground arith
evict_undefined (b ∷ rest) s h = ground (arith, evict_undefined rest (evict_one rest s) h)

pub length-drop : (n : ℕ) (q : List Batch) → length (drop n q) ≡ length q - n
length-drop zero q = omega arith
length-drop (suc n) [] = omega arith
length-drop (suc n) (b ∷ q) = omega (arith, length-drop n q)

-- A write of records to a sink that may hold a batch is defined: it drops as many of the oldest batches
-- as are too many for one more, counts them as dropped and as written, and puts the new batch last; the
-- queue is then within its bound.
pub write_lem :
    (s : QueueSink) (b : Batch)
    → b ≢ []
    → 0 < s.max_queued
    → let n = excess s.max_queued s.queue in
      (t : QueueSink) × (write s b ≡ some t)
      × (t.queue ≡ drop n s.queue ++ b ∷ [])
      × (t.dropped % u64 ≡ (s.dropped + n) % u64)
      × (t.written_batches % u64 ≡ (s.written_batches + n) % u64)
      × (t.queued_batches ≡ incr64 s.queued_batches)
      × (length t.queue ≤ s.max_queued)
unfolding write
write_lem s [] h k = absurd (h refl)
write_lem s (r ∷ rs) h k =
    let (t, e, i) = evict_lem s.queue s refl k in
    let size = length-append t.queue ((r ∷ rs) ∷ []) ∙ ap (λ q. length q + 1) i.queue in
    (
      push_back (r ∷ rs) t,
      rw (e, write),
      ap (λ q. q ++ (r ∷ rs) ∷ []) i.queue,
      i.dropped,
      i.written,
      ap incr64 i.queued,
      omega (arith, size, length-drop (excess s.max_queued s.queue) s.queue),
    )

-- A sink that may hold no batch has no defined way to take one: whatever is in its queue, the loop
-- empties it and then pops from an empty deque.
pub write_undefined : (s : QueueSink) (b : Batch) → b ≢ [] → s.max_queued ≡ 0 → write s b ≡ none
unfolding write
write_undefined s [] h k = absurd (h refl)
write_undefined s (r ∷ rs) h k = rw (evict_undefined s.queue s k, write)
