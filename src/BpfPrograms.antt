-- ===== src/BpfPrograms.antt =====
-- The programs that run in the kernel: src/core/attribution/cgroup_watcher.bpf.c,
-- src/probes/proc_lifecycle/proc_lifecycle.bpf.c and src/probes/oom/oom.bpf.c. What they ask of the kernel is
-- a parameter; a program gives the event that it submits to its ring buffer, if any.
pub mod EndToEnd
pub mod Tests
use slurm_tracer.Common.{
  ℕ, ◌+◌, ◌/◌, ◌%◌, ◌^◌, Bool, true, false, not, ◌&&◌, [], ◌∷◌, Option, none, some, ◌==◌,
  if◌then◌else◌,
}
use slurm_tracer.Text.{Bytes}
use slurm_tracer.Words.{u64}
use slurm_tracer.Events.{EventHdr}
use slurm_tracer.Attribution.Watcher.{CgroupEvent, cgroup_event_create, cgroup_event_remove}
use slurm_tracer.Probes.Oom.{OomEvent, event_kill}
use slurm_tracer.Probes.ProcLifecycle.{ProcEvent, event_exec, event_exit}

-- What the helpers return while a program runs: whether bpf_ringbuf_reserve has room, the clock, the current
-- task's cgroup, ids and command name, and what bpf_probe_read_kernel_str leaves in the event's array.
pub record Kernel : Type 0 where
  pub has_room : Bool
  pub ktime_ns : ℕ
  pub current_cgroup_id : ℕ
  pub current_pid_tgid : ℕ
  pub current_uid_gid : ℕ
  pub current_comm : Bytes
  pub read_str : Bytes → Bytes

-- Of a task_struct: its own id, its thread group's, its packed exit code, its cgroup and its name.
pub record Task : Type 0 where
  pub pid : ℕ
  pub tgid : ℕ
  pub exit_code : ℕ
  pub cgroup_id : ℕ
  pub comm : Bytes

abbrev pub u32 : ℕ
u32 = 2 ^ 32

-- What `emit` of the cgroup watcher puts in the array.
abbrev pub path_array : Kernel → Option Bytes → Bytes
path_array k none = 0 ∷ []
path_array k (some path) = k.read_str path

-- The path may be null.
unfoldable pub emit_cgroup : Kernel → ℕ → ℕ → Option Bytes → Option CgroupEvent
emit_cgroup k type cgroup_id path =
    if not k.has_room
    then none
    else some (record {
      hdr = record {
        ts_ns = k.ktime_ns;
        cgroup_id = cgroup_id;
        type = type;
        pid = 0;
        tid = 0;
        uid = 0;
      };
      path = path_array k path;
    })

unfoldable pub on_mkdir : Kernel → ℕ → Option Bytes → Option CgroupEvent
unfolding emit_cgroup
on_mkdir k cgroup_id path = emit_cgroup k cgroup_event_create cgroup_id path

unfoldable pub on_rmdir : Kernel → ℕ → Option Bytes → Option CgroupEvent
unfolding emit_cgroup
on_rmdir k cgroup_id path = emit_cgroup k cgroup_event_remove cgroup_id path

-- `filter_cgroup_id` is 0 where everything is reported.
unfoldable pub emit_proc : Kernel → ℕ → ℕ → ℕ → Option ProcEvent
emit_proc k filter type exit_code =
    if not (filter == 0) && not (k.current_cgroup_id == filter)
    then none
    else if not k.has_room
    then none
    else some (record {
      hdr = record {
        ts_ns = k.ktime_ns;
        cgroup_id = k.current_cgroup_id;
        type = type;
        pid = k.current_pid_tgid / u32 % u32;
        tid = k.current_pid_tgid % u32;
        uid = k.current_uid_gid % u32;
      };
      exit_code = exit_code;
      comm = k.current_comm;
    })

unfoldable pub on_exec : Kernel → ℕ → Option ProcEvent
unfolding emit_proc
on_exec k filter = emit_proc k filter event_exec 0

-- Only the exit of a thread group's leader is reported.
unfoldable pub on_exit : Kernel → ℕ → Task → Option ProcEvent
unfolding emit_proc
on_exit k filter p =
    if not (p.pid == p.tgid) then none else emit_proc k filter event_exit p.exit_code

unfoldable pub on_mark_victim : Kernel → Task → ℕ → Option OomEvent
on_mark_victim k victim uid =
    if not k.has_room
    then none
    else some (record {
      hdr = record {
        ts_ns = k.ktime_ns;
        cgroup_id = victim.cgroup_id;
        type = event_kill;
        pid = victim.tgid;
        tid = victim.pid;
        uid = uid;
      };
      comm = victim.comm;
    })
