-- ===== src/Attribution/Path.antt =====
-- src/core/attribution/attribution.cpp: the text of a cgroup path, and what it says of a job.
pub mod Split
pub mod Numeric
pub mod Parse
pub mod Tests
use slurm_tracer.Common.{
  ℕ, zero, suc, ◌+◌, Bool, true, false, not, ◌&&◌, ◌||◌, List, [], ◌∷◌, Option, none, some, ltb,
  leb, if◌then◌else◌, length, take, drop,
}
use slurm_tracer.Text.{Bytes, codes, is_empty, starts_with, find, all_digits, strtoul, u32_max}

pub record Attribution : Type 0 where
  pub job_id : ℕ
  pub step_id : Bytes
  pub task_id : Option ℕ

-- Where the next slash stands, or the end of the text.
abbrev pub segment_end : Bytes → ℕ
segment_end path = elim (find b'/' path) [ none ↦ length path | some slash ↦ slash ]

-- The loop of `split_path` over what is left of the path from `start` on.
unfoldable pub split_loop : ℕ → Bytes → List Bytes
split_loop zero path = []
split_loop (suc fuel) [] = []
split_loop (suc fuel) (c ∷ s) =
    let path = c ∷ s in
    let end = segment_end path in
    let rest = split_loop fuel (drop (suc end) path) in
    if ltb 0 end then take end path ∷ rest else rest

-- A round takes at least one byte, so the length of the path is fuel enough.
unfoldable pub split_path : Bytes → List Bytes
unfolding split_loop find
split_path path = split_loop (length path) path

unfoldable pub parse_numeric_suffix : Bytes → Bytes → Option ℕ
parse_numeric_suffix seg prefix =
    if leb (length seg) (length prefix) || not (starts_with prefix seg)
    then none
    else (let digits = drop (length prefix) seg in
        if is_empty digits
        then none
        else if not (all_digits digits)
        then none
        else (elim (strtoul digits) [
          | none ↦ none
          | some n ↦ if ltb u32_max n then none else some n
        ]))

abbrev pub blank : Attribution
blank = record { job_id = 0; step_id = []; task_id = none }

-- One round of the loop of `parse_cgroup_path`; the flag is `saw_job`.
unfoldable pub absorb : Attribution × Bool → Bytes → Attribution × Bool
absorb (attr, saw_job) seg = elim (parse_numeric_suffix seg (codes "job_")) [
  | some job ↦ (record { job_id = job; step_id = []; task_id = none }, true)
  | none ↦
      if starts_with (codes "step_") seg && ltb 5 (length seg)
      then (record attr { step_id = drop 5 seg; task_id = none }, saw_job)
      else (elim (parse_numeric_suffix seg (codes "task_")) [
        | some task ↦ (record attr { task_id = some task }, saw_job)
        | none ↦ (attr, saw_job)
      ])
]

unfoldable pub absorb_all : Attribution × Bool → List Bytes → Attribution × Bool
absorb_all st [] = st
absorb_all st (seg ∷ segs) = absorb_all (absorb st seg) segs

unfoldable pub parse_cgroup_path : Bytes → Option Attribution
unfolding absorb_all
parse_cgroup_path path =
    let (attr, saw_job) = absorb_all (blank, false) (split_path path) in
    if saw_job then some attr else none
