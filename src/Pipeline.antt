-- ===== src/Pipeline.antt =====
-- Pipeline of src/core/pipeline/pipeline.h and pipeline.cpp. A method takes the pipeline and returns it
-- with the calls that it makes of the sinks, in order. A sink is named by its address. The resolver,
-- which the pipeline holds by pointer, stands in its state. Times of steady_clock are in nanoseconds.
pub mod Enrich
pub mod Delivery
pub mod Bounds
pub mod Tests
use slurm_tracer.Common.{
  ℕ, ◌+◌, ◌*◌, Bool, true, false, List, [], ◌∷◌, ◌++◌, map, Option, none, some, ltb, leb,
  if◌then◌else◌, length,
}
use slurm_tracer.Text.{Bytes, is_empty}
use slurm_tracer.Words.{add64, incr64}
use slurm_tracer.Dict.{Dict, nat_key, lookup, emplace}
use slurm_tracer.Record.{Record}
use slurm_tracer.Attribution.Path.{Attribution}
use slurm_tracer.Attribution.Resolver.{CgroupResolver, resolve}

pub record Options : Type 0 where
  pub node : Bytes
  pub cluster : Bytes
  pub batch_size : ℕ
  -- Milliseconds.
  pub flush_interval : ℕ

pub record Stats : Type 0 where
  pub records : ℕ
  pub unattributed : ℕ

pub record Pipeline : Type 0 where
  pub opt : Options
  pub sinks : List ℕ
  pub resolver : CgroupResolver
  pub batch : List Record
  pub last_flush : ℕ
  pub user_cache : Dict ℕ Bytes
  pub stats : Stats

-- A call of a sink's `write` or `flush`.
pub data SinkCall : Type 0 where
  write : ℕ → List Record → SinkCall
  drain : ℕ → SinkCall

-- What the surroundings answer: the name that getpwuid_r finds for a user, and `boot_offset_ns`.
pub record Env : Type 0 where
  pub passwd : ℕ → Option Bytes
  pub boot_offset : ℕ

unfoldable pub new_pipeline : Options → List ℕ → CgroupResolver → ℕ → Pipeline
new_pipeline opt sinks resolver now = record {
  opt = opt;
  sinks = sinks;
  resolver = resolver;
  batch = [];
  last_flush = now;
  user_cache = [];
  stats = record { records = 0; unattributed = 0 };
}

-- An empty name stands for no entry.
abbrev pub named : Bytes → Option Bytes
named name = if is_empty name then none else some name

abbrev pub name_or_empty : Option Bytes → Bytes
name_or_empty none = []
name_or_empty (some name) = name

-- The name found, and the cache afterwards.
unfoldable pub lookup_user : Env → Dict ℕ Bytes → ℕ → Option Bytes × Dict ℕ Bytes
lookup_user env cache uid = elim (lookup uid cache) [
  | some name ↦ (named name, cache)
  | none ↦ let name = name_or_empty (env.passwd uid) in (named name, emplace uid name cache)
]

abbrev pub set_user : Option Bytes → Record → Record
set_user none r = r
set_user (some user) r = record r { user = some user }

unfoldable pub add_user : Env → Dict ℕ Bytes → Record → Record × Dict ℕ Bytes
unfolding lookup_user
add_user env cache r = elim r.uid [
  | none ↦ (r, cache)
  | some uid ↦ let (found, cache') = lookup_user env cache uid in (set_user found r, cache')
]

abbrev pub with_attribution : Attribution → Record → Record
with_attribution attr r = record r {
  job_id = some attr.job_id;
  step_id = if is_empty attr.step_id then r.step_id else some attr.step_id;
  task_id = attr.task_id;
}

abbrev pub stamp : Options → Env → Record → Record
stamp opt env r = record r {
  ts_ns = add64 r.ts_ns env.boot_offset;
  node = opt.node;
  cluster = opt.cluster;
}

abbrev pub count_unattributed : Stats → Stats
count_unattributed s = record s { unattributed = incr64 s.unattributed }

-- The record is enriched at its own monotonic time, before that is converted.
unfoldable pub enrich : Env → Pipeline → Record → Record × Pipeline
unfolding add_user
enrich env p r =
    let event_monotonic_ns = r.ts_ns in
    let (r', cache) = add_user env p.user_cache (stamp p.opt env r) in
    let (found, resolver) = resolve p.resolver r.cgroup_id event_monotonic_ns in
    let p' : Pipeline = record p { user_cache = cache; resolver = resolver } in
    elim found [
      | some attr ↦ (with_attribution attr r', p')
      | none ↦ (r', record p' { stats = count_unattributed p'.stats })
    ]

abbrev pub write_all : List ℕ → List Record → List SinkCall
write_all sinks batch = map (λ s. write s batch) sinks

ship_batch : List Record → Pipeline → Pipeline × List SinkCall
ship_batch [] p = (p, [])
ship_batch (r ∷ rs) p = (record p { batch = [] }, write_all p.sinks (r ∷ rs))

unfoldable pub ship : Pipeline → Pipeline × List SinkCall
unfolding ship_batch
ship p = ship_batch p.batch p

-- The record is counted and put at the end of the batch.
unfoldable pub push : Record → Pipeline → Pipeline
push r p = record p { batch = p.batch ++ r ∷ []; stats = record s { records = incr64 s.records } }
  where
    open p use {stats as s}

unfoldable pub emit : Env → Pipeline → Record → Pipeline × List SinkCall
unfolding push
emit env p r =
    let (r', p') = enrich env p r in
    let q = push r' p' in if leb q.opt.batch_size (length q.batch) then ship q else (q, [])

abbrev pub interval_ns : Options → ℕ
interval_ns opt = opt.flush_interval * 1_000_000

-- `now - last_flush_ < flush_interval`, over integers.
unfoldable pub tick : Pipeline → ℕ → Pipeline × List SinkCall
tick p now =
    if ltb now (p.last_flush + interval_ns p.opt)
    then (p, [])
    else (let (q, calls) = ship p in (record q { last_flush = now }, calls))

unfoldable pub flush : Pipeline → ℕ → Pipeline × List SinkCall
flush p now = let (q, calls) = ship p in (record q { last_flush = now }, calls ++ map drain q.sinks)

unfoldable pub set_sinks : Pipeline → List ℕ → Pipeline
set_sinks p sinks = record p { sinks = sinks }
