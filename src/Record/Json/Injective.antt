-- ===== src/Record/Json/Injective.antt =====
-- What the document of a record keeps.
use mathlib.Core.Option.{some-injective}
use slurm_tracer.Common.{
  ℕ, ◌≡◌, refl, sym, ap, ◌∙◌, List, [], ◌∷◌, Option, none, some, if◌then◌else◌, arith,
}
use slurm_tracer.Text.{Bytes, codes, same}
use slurm_tracer.Text.Laws.{same_iff}
use slurm_tracer.Record.{Record}
use slurm_tracer.Record.Json.{num, real, str, obj, put, get, opt_num, opt_str, put_all, document}

-- The value that a list of attributes gives a key last.
abbrev pub last_value : Bytes → List (Bytes × Bytes) → Option Bytes
last_value key [] = none
last_value key ((k, v) ∷ attrs) = elim (last_value key attrs) [
  | some w ↦ some w
  | none ↦ if same k key then some v else none
]

or_else : Option Bytes → Option Bytes → Option Bytes
or_else none o = o
or_else (some w) o = some w

get-put :
    (j : List (Bytes × Bytes)) (k v key : Bytes)
    → get (put j k v) key ≡ (if same k key then some v else get j key)
unfolding get put
get-put [] k v key = ground arith
get-put ((k', w) ∷ j) k v key =
    ground (arith, get-put j k v key, same_iff k' k, same_iff k' key, same_iff k key)

get-put_all :
    (j attrs : List (Bytes × Bytes)) (key : Bytes)
    → get (put_all j attrs) key ≡ or_else (last_value key attrs) (get j key)
unfolding put_all or_else
get-put_all j [] key = refl
get-put_all j ((k, v) ∷ attrs) key =
    ground (arith, get-put_all (put j k v) attrs key, get-put j k v key)

or_else-none : (o : Option Bytes) → or_else o none ≡ o
unfolding or_else
or_else-none none = refl
or_else-none (some w) = refl

-- Attributes that make the same object give every key the same value last.
put_all_same :
    (attrs attrs' : List (Bytes × Bytes)) (key : Bytes)
    → put_all [] attrs ≡ put_all [] attrs'
    → last_value key attrs ≡ last_value key attrs'
unfolding get
put_all_same attrs attrs' key h =
    sym (get-put_all [] attrs key ∙ or_else-none (last_value key attrs))
    ∙ ap (λ j. get j key) h
    ∙ get-put_all [] attrs' key
    ∙ or_else-none (last_value key attrs')

opt_num-injective : (o o' : Option ℕ) → opt_num o ≡ opt_num o' → o ≡ o'
opt_num-injective none none h = refl
opt_num-injective none (some n) h = cc
opt_num-injective (some n) none h = cc
opt_num-injective (some n) (some n') h = cc

opt_str-injective : (o o' : Option Bytes) → opt_str o ≡ opt_str o' → o ≡ o'
opt_str-injective none none h = refl
opt_str-injective none (some s) h = cc
opt_str-injective (some s) none h = cc
opt_str-injective (some s) (some s') h = cc

num_of : {n n' : ℕ} → some (num n) ≡ some (num n') → n ≡ n'
num_of h = cc

str_of : {s s' : Bytes} → some (str s) ≡ some (str s') → s ≡ s'
str_of h = cc

real_of : {n n' : ℕ} → some (real n) ≡ some (real n') → n ≡ n'
real_of h = cc

obj_of : {a a' : List (Bytes × Bytes)} → some (obj a) ≡ some (obj a') → a ≡ a'
obj_of h = cc

-- What one column of two equal documents holds.
column :
    (key : Bytes) (r r' : Record)
    → document r ≡ document r'
    → get (document r) key ≡ get (document r') key
column key r r' h = ap (λ j. get j key) h

-- The document loses nothing of a record but attributes that a later one of the same key replaces: two
-- records with the same document have the same value in every field, a missing value and an empty one told
-- apart, and for every key of an attribute the same last value.
pub document-injective :
    (r r' : Record)
    → document r ≡ document r'
    → (r.ts_ns ≡ r'.ts_ns)
      × (r.node ≡ r'.node)
      × (r.cluster ≡ r'.cluster)
      × (r.probe ≡ r'.probe)
      × (r.cgroup_id ≡ r'.cgroup_id)
      × (r.job_id ≡ r'.job_id)
      × (r.step_id ≡ r'.step_id)
      × (r.task_id ≡ r'.task_id)
      × (r.uid ≡ r'.uid)
      × (r.user ≡ r'.user)
      × (r.account ≡ r'.account)
      × (r.partition ≡ r'.partition)
      × (r.event_type ≡ r'.event_type)
      × (r.pid ≡ r'.pid)
      × (r.tid ≡ r'.tid)
      × (r.comm ≡ r'.comm)
      × (r.metric ≡ r'.metric)
      × (r.value ≡ r'.value)
      × (r.unit ≡ r'.unit)
      × ((key : Bytes) → last_value key r.attrs ≡ last_value key r'.attrs)
unfolding document same get
document-injective r r' h = (
  num_of (column (codes "ts_ns") r r' h),
  str_of (column (codes "node") r r' h),
  str_of (column (codes "cluster") r r' h),
  str_of (column (codes "probe") r r' h),
  num_of (column (codes "cgroup_id") r r' h),
  opt_num-injective _ _ (some-injective _ _ (column (codes "job_id") r r' h)),
  opt_str-injective _ _ (some-injective _ _ (column (codes "step_id") r r' h)),
  opt_num-injective _ _ (some-injective _ _ (column (codes "task_id") r r' h)),
  opt_num-injective _ _ (some-injective _ _ (column (codes "uid") r r' h)),
  opt_str-injective _ _ (some-injective _ _ (column (codes "user") r r' h)),
  opt_str-injective _ _ (some-injective _ _ (column (codes "account") r r' h)),
  opt_str-injective _ _ (some-injective _ _ (column (codes "partition") r r' h)),
  str_of (column (codes "event_type") r r' h),
  num_of (column (codes "pid") r r' h),
  num_of (column (codes "tid") r r' h),
  str_of (column (codes "comm") r r' h),
  str_of (column (codes "metric") r r' h),
  real_of (column (codes "value") r r' h),
  str_of (column (codes "unit") r r' h),
  λ key. put_all_same r.attrs r'.attrs key (obj_of (column (codes "attrs") r r' h)),
)
