-- ===== src/Attribution/Tests.antt =====
-- The resolver and what it reads, on concrete inputs.
use slurm_tracer.Common.{◌≡◌, ◌↔◌, refl, inl, inr, [], ◌∷◌, ◌++◌, none, some, All, arith}
use slurm_tracer.Text.{Bytes, codes, starts_with, all_digits, strtoul, value}
use slurm_tracer.Dict.{nat_key, lookup}
use slurm_tracer.Attribution.Path.{
  Attribution, split_path, parse_numeric_suffix, absorb, parse_cgroup_path,
}
use slurm_tracer.Attribution.Path.Numeric.{parse_numeric_suffix_iff}
use slurm_tracer.Attribution.Path.Parse.{
  task_path, NotJob, parse_cgroup_path-task_path, parse_cgroup_path-eq-none_iff,
}
use slurm_tracer.Attribution.Path.Split.{split_path-append}
use slurm_tracer.Attribution.Resolver.{
  CgroupResolver, fresh_entry, on_created, on_removed, expire, resolve,
}
use slurm_tracer.Attribution.Resolver.Lookup.{
  resolve_iff, resolve_counts, resolve-on_created, resolve-recycled,
}
use slurm_tracer.Attribution.Resolver.Calls.{
  created, removed, ticked, resolved, run, HasOneEach, run-HasOneEach,
}
use slurm_tracer.Attribution.Resolver.Grace.{resolve-lifetime, resolve-expired, on_removed_twice}

abbrev job_path : Bytes
job_path = codes "/cg/job_12/step_0"

abbrev job_attribution : Attribution
job_attribution = record { job_id = 12; step_id = codes "0"; task_id = none }

job_path_lem : parse_cgroup_path job_path ≡ some job_attribution
unfolding parse_cgroup_path split_path absorb parse_numeric_suffix starts_with all_digits strtoul
job_path_lem = refl

service_path_lem : parse_cgroup_path (codes "/cg/cron") ≡ none
unfolding parse_cgroup_path split_path absorb parse_numeric_suffix starts_with all_digits strtoul
service_path_lem = refl

parse_numeric_suffix_run : parse_numeric_suffix (codes "job_7") (codes "job_") ≡ some 7
unfolding all_digits value
parse_numeric_suffix_run =
    (parse_numeric_suffix_iff (codes "job_7") (codes "job_") 7).1
      (codes "7", refl, (λ e. cc), refl, refl, omega arith)

task_path_example :
    parse_cgroup_path (task_path (codes "/cg") 12 (codes "batch") 3)
    ≡ some (record { job_id = 12; step_id = codes "batch"; task_id = some 3 })
task_path_example =
    parse_cgroup_path-task_path (codes "/cg") 12 (codes "batch") 3 (omega arith) (omega arith)
      (λ e. cc) (ground arith)

no_job_example :
    (parse_cgroup_path (codes "/cg/cron") ≡ none) ↔ All NotJob (split_path (codes "/cg/cron"))
no_job_example = parse_cgroup_path-eq-none_iff (codes "/cg/cron")

split_path-append_run :
    split_path (codes "/cg/job_1/task_2")
    ≡ split_path (codes "/cg") ++ split_path (codes "job_1/task_2")
split_path-append_run = split_path-append (codes "/cg") (codes "job_1/task_2")

-- A resolver that knows one running cgroup, of inode 5 and created at 100.
abbrev known : CgroupResolver
known = record {
  root = codes "/cg";
  grace_ns = 1_000;
  entries = (5, fresh_entry job_attribution 100) ∷ [];
  stats = record { hits = 0; misses = 0; rescans = 0; stale = 0 };
}

-- The same, where it was removed at 200.
abbrev dying : CgroupResolver
dying = record known {
  entries = (5, record { attr = job_attribution; created_ns = 100; removed_ns = 200 }) ∷ [];
}

known-HasOneEach : HasOneEach known
known-HasOneEach = (tt, tt)

resolve_iff_run : (resolve known 5 150).0 ≡ some job_attribution
unfolding lookup
resolve_iff_run =
    (resolve_iff known 5 150 job_attribution).1
      (fresh_entry job_attribution 100, refl, inr (omega arith), refl)

resolve_counts_run : (resolve known 6 150).1.entries ≡ known.entries
resolve_counts_run = (resolve_counts known 6 150).0

resolve-on_created_run : (resolve (on_created known 8 job_path 300) 8 250).0 ≡ none
resolve-on_created_run =
    (resolve-on_created known 8 300 job_path job_attribution job_path_lem).1 250
      (λ e. omega (arith, e)) (omega arith)

resolve-recycled_example :
    (resolve (on_created dying 5 (codes "/cg/cron") 300) 5 350).0 ≡ some job_attribution
unfolding lookup
resolve-recycled_example =
    resolve-recycled dying 5 300 350 (codes "/cg/cron")
      (record { attr = job_attribution; created_ns = 100; removed_ns = 200 }) service_path_lem refl
      (omega arith) (omega arith)

run-HasOneEach_run :
    HasOneEach (run known (created 8 job_path 300 ∷ removed 5 400 ∷ ticked 9_000 ∷ []))
run-HasOneEach_run =
    run-HasOneEach known (created 8 job_path 300 ∷ removed 5 400 ∷ ticked 9_000 ∷ [])
      known-HasOneEach

resolve-lifetime_example :
    (resolve
      (run
        (on_removed
          (run (on_created known 8 job_path 300) (resolved 8 310 ∷ ticked 320 ∷ []))
          8
          400)
        (removed 5 410 ∷ ticked 1_400 ∷ []))
      8
      390).0
    ≡ some job_attribution
resolve-lifetime_example =
    resolve-lifetime known 8 300 400 job_path job_attribution (resolved 8 310 ∷ ticked 320 ∷ [])
      (removed 5 410 ∷ ticked 1_400 ∷ []) 390 known-HasOneEach job_path_lem (tt, (inl refl, tt))
      ((λ e. omega (arith, e)), (inr (omega arith, omega arith, omega arith), tt)) (omega arith)

resolve-expired_example : (resolve (expire dying 1_300) 5 150).0 ≡ none
unfolding lookup
resolve-expired_example =
    resolve-expired dying 5 1_300 150
      (record { attr = job_attribution; created_ns = 100; removed_ns = 200 }) (tt, tt) refl
      (λ e. omega (arith, e)) (omega arith) (omega arith) (omega arith)

on_removed_twice_run : on_removed (on_removed known 5 200) 5 300 ≡ on_removed known 5 200
on_removed_twice_run = on_removed_twice known 5 200 300 (λ e. omega (arith, e))
