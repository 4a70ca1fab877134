-- ===== src/Attribution/Path/Tests.antt =====
-- Paths as Slurm lays them out.
use slurm_tracer.Common.{◌≡◌, refl, none, some}
use slurm_tracer.Text.{codes, starts_with, all_digits, strtoul}
use slurm_tracer.Attribution.Path.{split_path, parse_numeric_suffix, absorb, parse_cgroup_path}

full_path :
    parse_cgroup_path
      (codes "/sys/fs/cgroup/system.slice/slurmstepd.scope/job_12/step_batch/user/task_3")
    ≡ some (record { job_id = 12; step_id = codes "batch"; task_id = some 3 })
unfolding parse_cgroup_path split_path absorb parse_numeric_suffix starts_with all_digits strtoul
full_path = refl

trailing_junk : parse_cgroup_path (codes "job_12x") ≡ none
unfolding parse_cgroup_path split_path absorb parse_numeric_suffix starts_with all_digits strtoul
trailing_junk = refl
