-- ===== src/Sinks/Queue.antt =====
-- What StdoutJsonSink (src/sinks/stdout_json/sink.cpp) and HttpSink (src/sinks/http/sink.cpp) share: a
-- bounded queue between the pipeline's thread and one worker thread, under one mutex. `write` is a
-- function; the threads are a step relation whose steps are the code's critical sections.
pub mod Write
pub mod Account
pub mod Order
pub mod Drain
use slurm_tracer.Common.{
  ℕ, suc, ◌<◌, ◌≡◌, Bool, true, false, List, [], ◌∷◌, ◌++◌, Option, none, some, leb, ◌||◌,
  if◌then◌else◌, length,
}
use slurm_tracer.Words.{u64, incr64}
use slurm_tracer.Record.{Record}

abbrev pub Batch : Type 0
Batch = List Record

-- Where the worker stands in its loop: waiting on `cv_`, between taking a batch and having written or
-- posted it, between that and counting it, or out of the loop.
pub data Worker : Type 0 where
  waiting : Worker
  busy : Batch → Worker
  counting : Worker
  finished : Worker

pub record QueueSink : Type 0 where
  pub max_queued : ℕ
  pub queue : List Batch
  pub stopping : Bool
  pub written_batches : ℕ
  pub queued_batches : ℕ
  pub dropped : ℕ
  pub worker : Worker
  -- The batches that the worker has written out or posted, and those that were accepted.
  pub sent : List Batch
  pub accepted : List Batch

unfoldable pub new_sink : ℕ → QueueSink
new_sink max_queued = record {
  max_queued = max_queued;
  queue = [];
  stopping = false;
  written_batches = 0;
  queued_batches = 0;
  dropped = 0;
  worker = waiting;
  sent = [];
  accepted = [];
}

abbrev pub evict_one : List Batch → QueueSink → QueueSink
evict_one rest s = record s {
  queue = rest;
  written_batches = incr64 s.written_batches;
  dropped = incr64 s.dropped;
}

-- The loop that drops the oldest batches while the queue is full. `none` is a `pop_front` on an empty
-- deque, whose behaviour is undefined.
unfoldable pub evict : List Batch → QueueSink → Option QueueSink
evict [] s = if leb s.max_queued 0 then none else some s
evict (b ∷ rest) s =
    let next = evict rest (evict_one rest s) in
    if leb s.max_queued (length (b ∷ rest)) then next else some s

abbrev pub push_back : Batch → QueueSink → QueueSink
push_back b s = record s {
  queue = s.queue ++ b ∷ [];
  queued_batches = incr64 s.queued_batches;
  accepted = s.accepted ++ b ∷ [];
}

unfoldable pub write : QueueSink → Batch → Option QueueSink
unfolding evict
write s [] = some s
write s (r ∷ rs) = elim (evict s.queue s) [ none ↦ none | some t ↦ some (push_back (r ∷ rs) t) ]

-- What `flush` waits for, after it has read `queued_batches` into `target`.
abbrev pub flush_returns : ℕ → QueueSink → Bool
flush_returns target s = leb target s.written_batches || s.stopping

abbrev pub take : Batch → List Batch → QueueSink → QueueSink
take b rest s = record s { queue = rest; worker = busy b }

-- The batch is out.
abbrev pub deliver : Batch → QueueSink → QueueSink
deliver b s = record s { worker = counting; sent = s.sent ++ b ∷ [] }

-- The batch is lost.
abbrev pub lose : QueueSink → QueueSink
lose s = record s { worker = counting; dropped = incr64 s.dropped }

abbrev pub count_written : QueueSink → QueueSink
count_written s = record s { worker = waiting; written_batches = incr64 s.written_batches }

abbrev pub leave : QueueSink → QueueSink
leave s = record s { worker = finished }

-- The steps of `run`.
pub data WorkerStep (s : QueueSink) (t : QueueSink) : Type 0 where
  takes :
      (b : Batch) (rest : List Batch)
      → s.worker ≡ waiting
      → s.queue ≡ b ∷ rest
      → t ≡ take b rest s
      → WorkerStep s t
  delivers : (b : Batch) → s.worker ≡ busy b → t ≡ deliver b s → WorkerStep s t
  loses : (b : Batch) → s.worker ≡ busy b → t ≡ lose s → WorkerStep s t
  counts : s.worker ≡ counting → t ≡ count_written s → WorkerStep s t
  leaves : s.worker ≡ waiting → s.queue ≡ [] → s.stopping ≡ true → t ≡ leave s → WorkerStep s t

-- The steps of the whole: of the worker; of the pipeline's thread, which writes to no sink that is being
-- destroyed, and fewer than 2 ^ 64 batches; and of the destructor.
pub data Step (s : QueueSink) (t : QueueSink) : Type 0 where
  works : WorkerStep s t → Step s t
  writes :
      (b : Batch) → s.stopping ≡ false → suc s.queued_batches < u64 → write s b ≡ some t → Step s t
  stops : t ≡ record s { stopping = true } → Step s t

pub data Reach (s : QueueSink) : QueueSink → Type 0 where
  here : Reach s s
  next : {t u : QueueSink} → Reach s t → Step t u → Reach s u

pub data WorkerReach (s : QueueSink) : QueueSink → Type 0 where
  start : WorkerReach s s
  more : {t u : QueueSink} → WorkerReach s t → WorkerStep t u → WorkerReach s u
