-- ===== src/BpfPrograms/EndToEnd.antt =====
-- From the kernel's programs to the records: what the wire format carries across.
use slurm_tracer.Common.{
  ℕ, ◌+◌, ◌*◌, ◌/◌, ◌%◌, ◌≤◌, ◌<◌, ◌≡◌, ◌≢◌, refl, ap, ◌∙◌, sym, true, [], ◌∷◌, ◌++◌, none, some,
  arith, length,
}
use slurm_tracer.Text.{Bytes, codes}
use slurm_tracer.Text.Decimal.{to_string}
use slurm_tracer.Text.Find.{Lacks}
use slurm_tracer.Words.{add64, u64}
use slurm_tracer.Record.{Record}
use slurm_tracer.Attribution.Path.{Attribution, parse_cgroup_path}
use slurm_tracer.Attribution.Resolver.{CgroupResolver, resolve}
use slurm_tracer.Attribution.Watcher.{
  CgroupEvent, cgroup_path_len, cgroup_event_size, cgroup_event_create, resolve-on_event,
}
use slurm_tracer.Attribution.Watcher
use slurm_tracer.Pipeline.{Env, Pipeline, enrich}
use slurm_tracer.Pipeline.Enrich.{answer, enrich-IsEnriched}
use slurm_tracer.Probes.ProcLifecycle.{
  ProcEvent, event_exit, event_exec, proc_event_size, on_event, wait_status, translate-wait_status,
  on_event_stamps, on_event_exec,
}
use slurm_tracer.BpfPrograms.{Kernel, Task, u32, on_mkdir, on_exec, on_exit}

-- What is documented of bpf_probe_read_kernel_str: a text that is shorter than the array is copied with its
-- terminator, and what stood behind that stays.
abbrev pub ReadsText : Kernel → Type 0
ReadsText k =
    (path : Bytes)
    → length path < cgroup_path_len
    → Lacks 0 path
    → (behind : Bytes) × (k.read_str path ≡ path ++ 0 ∷ behind)

-- The event of a leader's exit.
abbrev exit_event : Kernel → Task → ProcEvent
exit_event k p = record {
  hdr = record {
    ts_ns = k.ktime_ns;
    cgroup_id = k.current_cgroup_id;
    type = event_exit;
    pid = k.current_pid_tgid / u32 % u32;
    tid = k.current_pid_tgid % u32;
    uid = k.current_uid_gid % u32;
  };
  exit_code = p.exit_code;
  comm = k.current_comm;
}

-- The two halves of what bpf_get_current_pid_tgid returns, in an event and its record.
halves :
    (k : Kernel) (e : ProcEvent) (r : Record)
    → e.hdr.pid ≡ k.current_pid_tgid / u32 % u32
    → e.hdr.tid ≡ k.current_pid_tgid % u32
    → r.pid ≡ e.hdr.pid
    → r.tid ≡ e.hdr.tid
    → (r.pid * u32 + r.tid ≡ k.current_pid_tgid % u64) × (r.tid < u32)
halves k e r upper lower pid tid =
    (omega (arith, upper, lower, pid, tid), omega (arith, lower, tid))

-- A process ends, by its exit status or by a signal: where its event finds room, it comes to one record,
-- with the status, the signal if there was one, the cgroup and the time of the event, and the numbers that
-- the kernel's helper packs into 64 bits: the process from the upper half, and the thread from the lower. The
-- end of a thread that does not lead its group comes to nothing.
pub on_exit_records :
    (k : Kernel) (p : Task) (status core signal : ℕ)
    → k.has_room ≡ true
    → status < 256
    → core < 2
    → signal < 128
    → p.exit_code ≡ wait_status status core signal
    → (p.pid ≢ p.tgid → on_exit k 0 p ≡ none)
      × (p.pid ≡ p.tgid
          → (e : ProcEvent) × (r : Record) × (on_exit k 0 p ≡ some e)
            × (on_event proc_event_size e ≡ some r)
            × (r.value ≡ status)
            × (signal ≡ 0 → r.attrs ≡ [])
            × (signal ≢ 0 → r.attrs ≡ (codes "signal", to_string signal) ∷ [])
            × (r.cgroup_id ≡ k.current_cgroup_id)
            × (r.ts_ns ≡ k.ktime_ns)
            × (r.pid * u32 + r.tid ≡ k.current_pid_tgid % u64)
            × (r.tid < u32))
unfolding on_exit on_event
on_exit_records k p status core signal room hs hc hg packed = (
  λ apart. ground arith,
  λ leads.
      let e = exit_event k p in
      let (r, t, value, _, quiet, loud) =
        translate-wait_status e status core signal refl hs hc hg packed in
      let whole : on_event proc_event_size e ≡ some r = rw (t, on_event) refl in
      let stamps = on_event_stamps proc_event_size e r whole in
      let (numbers, thread) = halves k e r refl refl stamps.4 stamps.5 in
      (e, r, ground (arith, room), whole, value, quiet, loud, stamps.2, stamps.1, numbers, thread),
)

on_mkdir_fields :
    (k : Kernel) (id : ℕ) (path : Bytes) (made : CgroupEvent)
    → on_mkdir k id (some path) ≡ some made
    → (made.hdr.type ≡ cgroup_event_create)
      × (made.path ≡ k.read_str path)
      × (made.hdr.cgroup_id ≡ id)
      × (made.hdr.ts_ns ≡ k.ktime_ns)
unfolding on_mkdir
on_mkdir_fields k id path made h = ground arith

-- The event of an exec.
abbrev exec_event : Kernel → ProcEvent
exec_event k = record {
  hdr = record {
    ts_ns = k.ktime_ns;
    cgroup_id = k.current_cgroup_id;
    type = event_exec;
    pid = k.current_pid_tgid / u32 % u32;
    tid = k.current_pid_tgid % u32;
    uid = k.current_uid_gid % u32;
  };
  exit_code = 0;
  comm = k.current_comm;
}

-- A job's cgroup is made, and its event handled; from then on a process that runs in it starts a program. The
-- record of that bears, once enriched, the job, the wall clock's time of the event, and the process and the
-- thread, from the upper and the lower half of the number that the kernel's helper gives. Both events find
-- room, the path is shorter than the event's array, and the clock does not run backwards.
pub on_exec_attributed :
    (k k' : Kernel) (env : Env) (p : Pipeline) (old : CgroupResolver) (made : CgroupEvent) (id : ℕ)
    (path : Bytes) (attr : Attribution)
    → ReadsText k
    → length path < cgroup_path_len
    → Lacks 0 path
    → parse_cgroup_path path ≡ some attr
    → on_mkdir k id (some path) ≡ some made
    → p.resolver ≡ Watcher.on_event old cgroup_event_size made
    → k'.has_room ≡ true
    → k'.current_cgroup_id ≡ id
    → k.ktime_ns ≤ k'.ktime_ns
    → (e : ProcEvent) × (r : Record) × (on_exec k' 0 ≡ some e)
      × (on_event proc_event_size e ≡ some r)
      × ((enrich env p r).0.job_id ≡ some attr.job_id)
      × ((enrich env p r).0.task_id ≡ attr.task_id)
      × ((enrich env p r).0.ts_ns ≡ add64 k'.ktime_ns env.boot_offset)
      × ((enrich env p r).0.pid * u32 + (enrich env p r).0.tid ≡ k'.current_pid_tgid % u64)
      × ((enrich env p r).0.tid < u32)
unfolding on_exec
on_exec_attributed k k' env p old made id path attr reads short clean job makes handled room in_it
      ordered =
    let e = exec_event k' in
    let (r, whole) = on_event_exec e refl in
    let stamps = on_event_stamps proc_event_size e r whole in
    let (kind, text, at, time) = on_mkdir_fields k id path made makes in
    let (behind, copied) = reads path short clean in
    let known =
      resolve-on_event old made cgroup_event_size k'.ktime_ns path behind attr (omega arith) kind
        (text ∙ copied) clean short job (omega (arith, time, ordered)) in
    let same_id : r.cgroup_id ≡ made.hdr.cgroup_id = stamps.2 ∙ in_it ∙ sym at in
    let found : answer p r ≡ some attr =
      ap (λ (q : CgroupResolver). (resolve q r.cgroup_id r.ts_ns).0) handled
      ∙ ap (λ c. (resolve (Watcher.on_event old cgroup_event_size made) c r.ts_ns).0) same_id
      ∙ ap (λ t. (resolve (Watcher.on_event old cgroup_event_size made) made.hdr.cgroup_id t).0)
          stamps.1
      ∙ known in
    let enriched = enrich-IsEnriched env p r in
    let fields = enriched.attributed attr found in
    let (numbers, thread) =
      halves k' e (enrich env p r).0 refl refl (enriched.payload.pid ∙ stamps.4)
        (enriched.payload.tid ∙ stamps.5) in
    (
      e,
      r,
      ground (arith, room),
      whole,
      fields.0,
      fields.1,
      enriched.ts_ns ∙ ap (λ t. add64 t env.boot_offset) stamps.1,
      numbers,
      thread,
    )
