-- ===== src/Probes/ProcLifecycle.antt =====
-- src/probes/proc_lifecycle: proc_lifecycle_events.h, translate.cpp, and `on_event` of probe.cpp.
use slurm_tracer.Common.{
  ℕ, ◌+◌, ◌*◌, ◌/◌, ◌%◌, ◌≤◌, ◌<◌, ◌≡◌, ◌≢◌, refl, [], ◌∷◌, ◌++◌, Option, none, some, arith, ltb,
  ◌==◌, if◌then◌else◌,
}
use slurm_tracer.Text.{Bytes, codes}
use slurm_tracer.Text.Decimal.{to_string}
use slurm_tracer.Events.{EventHdr, comm_len, bounded_text}
use slurm_tracer.Record.{Record, new_record}

abbrev pub event_exec : ℕ
event_exec = 1

abbrev pub event_exit : ℕ
event_exit = 2

-- `exit_code` is a __s32; it is its bit pattern, a number below 2 ^ 32.
pub record ProcEvent : Type 0 where
  pub hdr : EventHdr
  pub exit_code : ℕ
  pub comm : Bytes

-- sizeof(st_proc_event): a header of 32 bytes, 4 + 16 bytes, and padding to a multiple of 8.
abbrev pub proc_event_size : ℕ
proc_event_size = 56

-- `(exit_code >> 8) & 0xff`: bits 8 to 15 of the pattern, whatever the sign.
abbrev pub exit_status : ℕ → ℕ
exit_status exit_code = exit_code / 256 % 256

-- `exit_code & 0x7f`.
abbrev pub exit_signal : ℕ → ℕ
exit_signal exit_code = exit_code % 128

common_fields : ProcEvent → Record → Record
common_fields e r = record r {
  probe = codes "proc_lifecycle";
  ts_ns = e.hdr.ts_ns;
  cgroup_id = e.hdr.cgroup_id;
  uid = some e.hdr.uid;
  pid = e.hdr.pid;
  tid = e.hdr.tid;
  comm = bounded_text e.comm comm_len;
}

exec_fields : Record → Record
exec_fields r = record r {
  event_type = codes "exec";
  metric = codes "proc.exec";
  value = 1;
  unit = codes "count";
}

exit_fields : ℕ → Record → Record
exit_fields exit_code r = record r {
  event_type = codes "exit";
  metric = codes "proc.exit";
  value = exit_status exit_code;
  unit = codes "exit_status";
  attrs =
      if exit_signal exit_code == 0
      then r.attrs
      else r.attrs ++ ((codes "signal", to_string (exit_signal exit_code)) ∷ []);
}

-- `none` is a result of false, where the record is left unspecified.
unfoldable pub translate : ProcEvent → Record → Option Record
unfolding common_fields exec_fields exit_fields
translate e r =
    if e.hdr.type == event_exec
    then some (common_fields e (exec_fields r))
    else if e.hdr.type == event_exit
    then some (common_fields e (exit_fields e.exit_code r))
    else none

-- What `on_event` emits.
unfoldable pub on_event : ℕ → ProcEvent → Option Record
unfolding translate
on_event len e = if ltb len proc_event_size then none else translate e new_record

-- A wait status, with the exit status in bits 8 to 15, the core flag in bit 7 and the signal below it.
abbrev pub wait_status : ℕ → ℕ → ℕ → ℕ
wait_status status core signal = status * 256 + core * 128 + signal

-- The record of an exit: the value is the exit status that the kernel packed, and there is a `signal`
-- attribute exactly for a process that a signal ended, with the signal's number.
pub translate-wait_status :
    (e : ProcEvent) (status core signal : ℕ)
    → e.hdr.type ≡ event_exit
    → status < 256
    → core < 2
    → signal < 128
    → e.exit_code ≡ wait_status status core signal
    → (r : Record) × (translate e new_record ≡ some r)
      × (r.value ≡ status)
      × (r.event_type ≡ codes "exit")
      × (signal ≡ 0 → r.attrs ≡ [])
      × (signal ≢ 0 → r.attrs ≡ (codes "signal", to_string signal) ∷ [])
unfolding translate
translate-wait_status e status core signal h hs hc hg packed =
    let low : exit_signal e.exit_code ≡ signal = omega arith in
    let high : exit_status e.exit_code ≡ status = omega arith in
    (
      common_fields e (exit_fields e.exit_code new_record),
      ground arith,
      high,
      refl,
      λ z. ground arith,
      λ nz. ground arith,
    )

-- What is emitted, and when: a whole event of a known type gives one record, that carries the header's
-- time (still monotonic), cgroup, process and user, and leaves what only the pipeline knows unset; a
-- short event or an unknown type gives none.
pub on_event_stamps :
    (len : ℕ) (e : ProcEvent) (r : Record)
    → on_event len e ≡ some r
    → (proc_event_size ≤ len)
      × (r.ts_ns ≡ e.hdr.ts_ns)
      × (r.cgroup_id ≡ e.hdr.cgroup_id)
      × (r.uid ≡ some e.hdr.uid)
      × (r.pid ≡ e.hdr.pid)
      × (r.tid ≡ e.hdr.tid)
      × (r.job_id ≡ none)
      × (r.step_id ≡ none)
      × (r.task_id ≡ none)
      × (r.user ≡ none)
      × (r.node ≡ [])
      × (r.cluster ≡ [])
unfolding on_event
on_event_stamps len e r h = ground arith

-- The event of an exec is translated.
pub on_event_exec :
    (e : ProcEvent) → e.hdr.type ≡ event_exec → (r : Record) × (on_event proc_event_size e ≡ some r)
unfolding on_event
on_event_exec e h = (common_fields e (exec_fields new_record), ground arith)
