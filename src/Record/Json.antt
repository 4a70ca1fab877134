-- ===== src/Record/Json.antt =====
-- src/core/record/record.cpp: the JSON document of a record. nlohmann::ordered_json keeps the keys in
-- the order in which they are first assigned; its printer, `dump`, is a parameter, which gives none where it
-- throws, on a text that is not UTF-8.
pub mod Injective
use slurm_tracer.Common.{ℕ, List, [], ◌∷◌, Option, none, some, if◌then◌else◌}
use slurm_tracer.Text.{Bytes, codes, same}
use slurm_tracer.Record.{Record}

pub data Json : Type 0 where
  null : Json
  num : ℕ → Json
  real : ℕ → Json
  str : Bytes → Json
  obj : List (Bytes × Bytes) → Json

-- `j[key] = v`.
unfoldable pub put {ℓ} : {V : Type ℓ} → List (Bytes × V) → Bytes → V → List (Bytes × V)
put [] key v = (key, v) ∷ []
put ((k, w) ∷ j) key v = if same k key then (k, v) ∷ j else (k, w) ∷ put j key v

unfoldable pub get {ℓ} : {V : Type ℓ} → List (Bytes × V) → Bytes → Option V
get [] key = none
get ((k, w) ∷ j) key = if same k key then some w else get j key

abbrev pub opt_num : Option ℕ → Json
opt_num none = null
opt_num (some n) = num n

abbrev pub opt_str : Option Bytes → Json
opt_str none = null
opt_str (some s) = str s

unfoldable pub put_all : List (Bytes × Bytes) → List (Bytes × Bytes) → List (Bytes × Bytes)
put_all j [] = j
put_all j ((k, v) ∷ attrs) = put_all (put j k v) attrs

-- The assignments of `to_json`, in its order.
abbrev pub fields : Record → List (Bytes × Json)
fields r =
    (codes "ts_ns", num r.ts_ns)
    ∷ (codes "node", str r.node)
    ∷ (codes "cluster", str r.cluster)
    ∷ (codes "probe", str r.probe)
    ∷ (codes "cgroup_id", num r.cgroup_id)
    ∷ (codes "job_id", opt_num r.job_id)
    ∷ (codes "step_id", opt_str r.step_id)
    ∷ (codes "task_id", opt_num r.task_id)
    ∷ (codes "uid", opt_num r.uid)
    ∷ (codes "user", opt_str r.user)
    ∷ (codes "account", opt_str r.account)
    ∷ (codes "partition", opt_str r.partition)
    ∷ (codes "event_type", str r.event_type)
    ∷ (codes "pid", num r.pid)
    ∷ (codes "tid", num r.tid)
    ∷ (codes "comm", str r.comm)
    ∷ (codes "metric", str r.metric)
    ∷ (codes "value", real r.value)
    ∷ (codes "unit", str r.unit)
    ∷ (codes "attrs", obj (put_all [] r.attrs))
    ∷ []

unfoldable pub assign_all : List (Bytes × Json) → List (Bytes × Json) → List (Bytes × Json)
assign_all j [] = j
assign_all j ((k, v) ∷ rest) = assign_all (put j k v) rest

unfoldable pub document : Record → List (Bytes × Json)
unfolding assign_all put
document r = assign_all [] (fields r)

unfoldable pub to_json : (List (Bytes × Json) → Option Bytes) → Record → Option Bytes
unfolding document
to_json dump r = dump (document r)
