-- ===== src/BpfPrograms/Tests.antt =====
-- A cgroup is made, a process starts in it and is killed.
use slurm_tracer.Common.{ℕ, ◌+◌, ◌*◌, ◌^◌, ◌≡◌, refl, true, [], ◌∷◌, ◌++◌, none, some, arith}
use slurm_tracer.Text.{codes, starts_with, all_digits, strtoul}
use slurm_tracer.Record.{Record}
use slurm_tracer.Attribution.Path.{
  Attribution, split_path, parse_numeric_suffix, absorb, parse_cgroup_path,
}
use slurm_tracer.Attribution.Resolver.{CgroupResolver, new_resolver}
use slurm_tracer.Attribution.Watcher.{
  CgroupEvent, cgroup_event_size, cgroup_event_create, cgroup_path_len,
}
use slurm_tracer.Attribution.Watcher
use slurm_tracer.Pipeline.{Env, Pipeline, enrich}
use slurm_tracer.Probes.ProcLifecycle.{ProcEvent, proc_event_size, on_event}
use slurm_tracer.BpfPrograms.{Kernel, Task, u32, on_mkdir, on_exec, on_exit}
use slurm_tracer.BpfPrograms.EndToEnd.{ReadsText, on_exit_records, on_exec_attributed}

-- A kernel at a time, in cgroup 9, where a text is copied with its terminator.
abbrev kernel_at : ℕ → Kernel
kernel_at now = record {
  has_room = true;
  ktime_ns = now;
  current_cgroup_id = 9;
  current_pid_tgid = 41 * 2 ^ 32 + 41;
  current_uid_gid = 1_000;
  current_comm = codes "python";
  read_str = λ path. path ++ 0 ∷ [];
}

kernel-ReadsText : ReadsText (kernel_at 100)
kernel-ReadsText path short clean = ([], refl)

abbrev leader : Task
leader = record { pid = 41; tgid = 41; exit_code = 137; cgroup_id = 9; comm = codes "python" }

on_exit_records_example :
    (e : ProcEvent) × (r : Record) × (on_exit (kernel_at 200) 0 leader ≡ some e)
    × (on_event proc_event_size e ≡ some r)
    × (r.value ≡ 0)
    × (r.pid * u32 + r.tid ≡ 41 * 2 ^ 32 + 41)
on_exit_records_example =
    let (e, r, exits, emits, value, _, _, _, _, process, _) =
      (on_exit_records (kernel_at 200) leader 0 1 9 refl (omega arith) (omega arith) (omega arith)
          (omega arith)).1
        refl in
    (e, r, exits, emits, value, process)

abbrev seven : Attribution
seven = record { job_id = 7; step_id = []; task_id = none }

abbrev made : CgroupEvent
made = record {
  hdr = record {
    ts_ns = 100;
    cgroup_id = 9;
    type = cgroup_event_create;
    pid = 0;
    tid = 0;
    uid = 0;
  };
  path = codes "/cg/job_7" ++ 0 ∷ [];
}

abbrev empty_resolver : CgroupResolver
empty_resolver = new_resolver (codes "/cg") 1_000

abbrev env : Env
env = record { passwd = λ uid. none; boot_offset = 5_000 }

abbrev pipeline : Pipeline
pipeline = record {
  opt = record { node = codes "n1"; cluster = codes "c"; batch_size = 2; flush_interval = 5 };
  sinks = [];
  resolver = Watcher.on_event empty_resolver cgroup_event_size made;
  batch = [];
  last_flush = 0;
  user_cache = [];
  stats = record { records = 0; unattributed = 0 };
}

on_exec_attributed_example :
    (e : ProcEvent) × (r : Record) × (on_exec (kernel_at 150) 0 ≡ some e)
    × (on_event proc_event_size e ≡ some r)
    × ((enrich env pipeline r).0.job_id ≡ some 7)
unfolding parse_cgroup_path split_path absorb parse_numeric_suffix starts_with all_digits strtoul
    on_mkdir
on_exec_attributed_example =
    let (e, r, runs, emits, job, _, _, _, _) =
      on_exec_attributed (kernel_at 100) (kernel_at 150) env pipeline empty_resolver made 9
        (codes "/cg/job_7") seven kernel-ReadsText (omega arith) (ground arith) refl refl refl refl
        refl (omega arith) in
    (e, r, runs, emits, job)
