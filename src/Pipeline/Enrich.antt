-- ===== src/Pipeline/Enrich.antt =====
-- What enrichment adds to a record, and what it leaves.
use slurm_tracer.Common.{
  ℕ, ◌≡◌, refl, Option, none, some, arith, Option-cases, inl, inr, if◌then◌else◌,
}
use slurm_tracer.Text.{Bytes, is_empty}
use slurm_tracer.Words.{add64}
use slurm_tracer.Dict.{Dict, nat_key, lookup}
use slurm_tracer.Dict.Laws.{lookup-emplace_self}
use slurm_tracer.Record.{Record}
use slurm_tracer.Attribution.Path.{Attribution}
use slurm_tracer.Attribution.Resolver.{resolve}
use slurm_tracer.Pipeline.{
  Env, Pipeline, name_or_empty, lookup_user, add_user, enrich, with_attribution, stamp, set_user,
  count_unattributed,
}

-- What the probe knows of an event, which nobody else touches.
pub record SamePayload (r q : Record) : Type 0 where
  pub probe : q.probe ≡ r.probe
  pub cgroup_id : q.cgroup_id ≡ r.cgroup_id
  pub uid : q.uid ≡ r.uid
  pub event_type : q.event_type ≡ r.event_type
  pub pid : q.pid ≡ r.pid
  pub tid : q.tid ≡ r.tid
  pub comm : q.comm ≡ r.comm
  pub metric : q.metric ≡ r.metric
  pub value : q.value ≡ r.value
  pub unit : q.unit ≡ r.unit
  pub attrs : q.attrs ≡ r.attrs

add_user-cases {ℓ} :
    (P : Record → Type ℓ) (env : Env) (cache : Dict ℕ Bytes) (r : Record)
    → ((o : Option Bytes) → P (set_user o r))
    → P (add_user env cache r).0
unfolding add_user
add_user-cases P env cache r h = elim (Option-cases r.uid) [
  | inl e ↦ rw (e, add_user) (h none)
  | inr (uid, e) ↦ rw (e, add_user) (h (lookup_user env cache uid).0)
]

pub enrich-cases {ℓ} :
    (P : Record × Pipeline → Type ℓ) (env : Env) (p : Pipeline) (r : Record)
    → let a = add_user env p.user_cache (stamp p.opt env r) in
      let f = resolve p.resolver r.cgroup_id r.ts_ns in
      let p' : Pipeline = record p { user_cache = a.1; resolver = f.1 } in
      ((attr : Attribution) → f.0 ≡ some attr → P (with_attribution attr a.0, p'))
      → (f.0 ≡ none → P (a.0, record p' { stats = count_unattributed p'.stats }))
      → P (enrich env p r)
unfolding enrich
enrich-cases P env p r hit miss = elim (Option-cases (resolve p.resolver r.cgroup_id r.ts_ns).0) [
  | inl e ↦ rw (e, enrich) (miss e)
  | inr (attr, e) ↦ rw (e, enrich) (hit attr e)
]

-- Looking up the user changes nothing else.
record SameOther (r q : Record) : Type 0 where
  payload : SamePayload r q
  ts_ns : q.ts_ns ≡ r.ts_ns
  node : q.node ≡ r.node
  cluster : q.cluster ≡ r.cluster
  job_id : q.job_id ≡ r.job_id
  step_id : q.step_id ≡ r.step_id
  task_id : q.task_id ≡ r.task_id

set_user-SameOther : (r : Record) (o : Option Bytes) → SameOther r (set_user o r)
set_user-SameOther r none = ground arith
set_user-SameOther r (some user) = ground arith

add_user-SameOther :
    (env : Env) (cache : Dict ℕ Bytes) (r : Record) → SameOther r (add_user env cache r).0
add_user-SameOther env cache r = add_user-cases (SameOther r) env cache r (set_user-SameOther r)

abbrev pub answer : Pipeline → Record → Option Attribution
answer p r = (resolve p.resolver r.cgroup_id r.ts_ns).0

-- A record `q`, and the pipeline `p'` afterwards, as enriching `r` should give them.
pub record IsEnriched (env : Env) (p : Pipeline) (r q : Record) (p' : Pipeline) : Type 0 where
  pub payload : SamePayload r q
  pub ts_ns : q.ts_ns ≡ add64 r.ts_ns env.boot_offset
  pub node : q.node ≡ p.opt.node
  pub cluster : q.cluster ≡ p.opt.cluster
  pub attributed :
      (attr : Attribution)
      → answer p r ≡ some attr
      → (q.job_id ≡ some attr.job_id)
        × (q.task_id ≡ attr.task_id)
        × (q.step_id ≡ (if is_empty attr.step_id then r.step_id else some attr.step_id))
        × (p'.stats ≡ p.stats)
  pub unattributed :
      answer p r ≡ none
      → (q.job_id ≡ r.job_id)
        × (q.task_id ≡ r.task_id)
        × (q.step_id ≡ r.step_id)
        × (p'.stats ≡ count_unattributed p.stats)

-- Enrichment leaves the probe's payload, takes the time to the wall clock, stamps node and cluster, and
-- sets job, step and task to the answer that the resolver gives for the event's own cgroup and
-- monotonic time; without an answer it leaves them and counts the record as unattributed.
pub enrich-IsEnriched :
    (env : Env) (p : Pipeline) (r : Record)
    → IsEnriched env p r (enrich env p r).0 (enrich env p r).1
enrich-IsEnriched env p r =
    let s = add_user-SameOther env p.user_cache (stamp p.opt env r) in
    enrich-cases (λ (q, p'). IsEnriched env p r q p') env p r
      (λ attr found. record {
        payload = ground arith;
        ts_ns = s.ts_ns;
        node = s.node;
        cluster = s.cluster;
        attributed = λ other e. ground arith;
        unattributed = λ e. ground arith;
      })
      (λ missing. record {
        payload = ground arith;
        ts_ns = s.ts_ns;
        node = s.node;
        cluster = s.cluster;
        attributed = λ other e. ground arith;
        unattributed = λ e. (s.job_id, s.task_id, s.step_id, refl);
      })

-- Of one user the database is asked once: after the first lookup of a uid, every later one, whatever the
-- database would answer by then, gives the name that was found first, also where it found none.
pub lookup_user_once :
    (env later : Env) (cache : Dict ℕ Bytes) (uid : ℕ)
    → let first = lookup_user env cache uid in lookup_user later first.1 uid ≡ first
unfolding lookup_user
lookup_user_once env later cache uid = elim (Option-cases (lookup uid cache)) [
  | inl e ↦
      let self = lookup-emplace_self uid (name_or_empty (env.passwd uid)) cache e in ground arith
  | inr (name, e) ↦ ground arith
]
