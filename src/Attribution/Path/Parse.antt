-- ===== src/Attribution/Path/Parse.antt =====
-- What a whole path says.
use slurm_tracer.Common.{
  ℕ, ◌≤◌, ◌≡◌, ◌≢◌, ◌∙◌, refl, Bool, true, false, List, [], ◌∷◌, ◌++◌, some, none, arith, All,
  All-append, ◌↔◌,
}
use mathlib.Core.List.{cons-ne-nil}
use slurm_tracer.Text.{Bytes, codes, all_digits, starts_with, u32_max}
use slurm_tracer.Text.Find.{Lacks}
use slurm_tracer.Text.Decimal.{to_string, all_digits-to_string}
use slurm_tracer.Attribution.Path.Split.{split_path-append, split_path_of_Lacks}
use slurm_tracer.Attribution.Path.Numeric.{
  parse_numeric_suffix-to_string, parse_numeric_suffix_other,
}
use slurm_tracer.Attribution.Path.{
  Attribution, parse_numeric_suffix, absorb, absorb_all, split_path, parse_cgroup_path, blank,
}

absorb_all-append :
    (st : Attribution × Bool) (xs ys : List Bytes)
    → absorb_all st (xs ++ ys) ≡ absorb_all (absorb_all st xs) ys
unfolding absorb_all
absorb_all-append st [] ys = refl
absorb_all-append st (x ∷ xs) ys = absorb_all-append (absorb st x) xs ys

digits-Lacks : (s : Bytes) → all_digits s ≡ true → Lacks b'/' s
unfolding all_digits
digits-Lacks [] h = tt
digits-Lacks (c ∷ s) h = ground (arith, digits-Lacks s)

abbrev pub job_segment : ℕ → Bytes
job_segment n = codes "job_" ++ to_string n

abbrev pub step_segment : Bytes → Bytes
step_segment s = codes "step_" ++ s

abbrev pub task_segment : ℕ → Bytes
task_segment n = codes "task_" ++ to_string n

job-Lacks : (n : ℕ) → Lacks b'/' (job_segment n)
job-Lacks n =
    All-append _ (codes "job_") (to_string n) (omega arith)
      (digits-Lacks (to_string n) (all_digits-to_string n))

task-Lacks : (n : ℕ) → Lacks b'/' (task_segment n)
task-Lacks n =
    All-append _ (codes "task_") (to_string n) (omega arith)
      (digits-Lacks (to_string n) (all_digits-to_string n))

step-Lacks : (s : Bytes) → Lacks b'/' s → Lacks b'/' (step_segment s)
step-Lacks s h = All-append _ (codes "step_") s (omega arith) h

absorb-job :
    (st : Attribution × Bool) (n : ℕ)
    → n ≤ u32_max
    → absorb st (job_segment n) ≡ (record { job_id = n; step_id = []; task_id = none }, true)
unfolding absorb
absorb-job st n h = ground (arith, parse_numeric_suffix-to_string (codes "job_") n h)

absorb-step :
    (attr : Attribution) (saw : Bool) (s : Bytes)
    → s ≢ []
    → absorb (attr, saw) (step_segment s) ≡ (record attr { step_id = s; task_id = none }, saw)
unfolding absorb starts_with
absorb-step attr saw [] h = absurd (h refl)
absorb-step attr saw (c ∷ s) h =
    ground (arith, parse_numeric_suffix_other (step_segment (c ∷ s)) (codes "job_") refl)

absorb-task :
    (attr : Attribution) (saw : Bool) (n : ℕ)
    → n ≤ u32_max
    → absorb (attr, saw) (task_segment n) ≡ (record attr { task_id = some n }, saw)
unfolding absorb starts_with
absorb-task attr saw n h = ground (
  arith,
  parse_numeric_suffix_other (task_segment n) (codes "job_") refl,
  parse_numeric_suffix-to_string (codes "task_") n h,
)

abbrev pub task_path : Bytes → ℕ → Bytes → ℕ → Bytes
task_path base job step task =
    base ++ b'/' ∷ (job_segment job ++ b'/' ∷ (step_segment step ++ b'/' ∷ task_segment task))

split_path-task_path :
    (base : Bytes) (job : ℕ) (step : Bytes) (task : ℕ)
    → Lacks b'/' step
    → split_path (task_path base job step task)
      ≡ split_path base ++ (job_segment job ∷ step_segment step ∷ task_segment task ∷ [])
split_path-task_path base job step task h = simp (
  split_path-append,
  split_path_of_Lacks (job_segment job) (job-Lacks job) (cons-ne-nil _ _),
  split_path_of_Lacks (step_segment step) (step-Lacks step h) (cons-ne-nil _ _),
  split_path_of_Lacks (task_segment task) (task-Lacks task) (cons-ne-nil _ _),
)

-- The path of a task, below any other directories, is read as that job, step and task, where the step
-- is not empty and holds no slash, and both numbers fit in 32 bits.
pub parse_cgroup_path-task_path :
    (base : Bytes) (job : ℕ) (step : Bytes) (task : ℕ)
    → job ≤ u32_max
    → task ≤ u32_max
    → step ≢ []
    → Lacks b'/' step
    → parse_cgroup_path (task_path base job step task)
      ≡ some (record { job_id = job; step_id = step; task_id = some task })
unfolding parse_cgroup_path absorb_all
parse_cgroup_path-task_path base job step task hj ht hs hl = rw (
  split_path-task_path base job step task hl,
  absorb_all-append (blank, false) (split_path base),
  absorb-job _ job hj,
  absorb-step _ true step hs,
  absorb-task _ true task ht,
)

abbrev pub NotJob : Bytes → Type 0
NotJob seg = parse_numeric_suffix seg (codes "job_") ≡ none

absorb-NotJob : (st : Attribution × Bool) (seg : Bytes) → NotJob seg → (absorb st seg).1 ≡ st.1
unfolding absorb
absorb-NotJob st seg h = ground arith

absorb_flag :
    (st : Attribution × Bool) (seg : Bytes)
    → (absorb st seg).1 ≡ false
    → (st.1 ≡ false) × NotJob seg
unfolding absorb
absorb_flag st seg h = ground arith

absorb_all_flag :
    (st : Attribution × Bool) (segs : List Bytes)
    → ((absorb_all st segs).1 ≡ false) ↔ ((st.1 ≡ false) × All NotJob segs)
unfolding absorb_all
absorb_all_flag st [] = (λ h. (h, tt), λ h. h.0)
absorb_all_flag st (seg ∷ segs) =
    let ih = absorb_all_flag (absorb st seg) segs in
    (
      λ h. let here = absorb_flag st seg (ih.0 h).0 in (here.0, (here.1, (ih.0 h).1)),
      λ h. ih.1 (absorb-NotJob st seg h.1.0 ∙ h.0, h.1.1),
    )

-- A path is not job work exactly when none of its segments is a numbered `job_` segment.
pub parse_cgroup_path-eq-none_iff :
    (path : Bytes) → (parse_cgroup_path path ≡ none) ↔ All NotJob (split_path path)
unfolding parse_cgroup_path
parse_cgroup_path-eq-none_iff path =
    let flag = absorb_all_flag (blank, false) (split_path path) in
    (λ h. (flag.0 (ground arith)).1, λ h. rw (flag.1 (refl, h)))
