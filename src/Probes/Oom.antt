-- ===== src/Probes/Oom.antt =====
-- src/probes/oom: oom_events.h, translate.cpp, and `on_event` of probe.cpp.
use slurm_tracer.Common.{
  ℕ, ◌≤◌, ◌<◌, ◌≡◌, ◌≢◌, refl, Option, none, some, arith, ltb, ◌==◌, if◌then◌else◌,
}
use slurm_tracer.Text.{Bytes, codes}
use slurm_tracer.Events.{EventHdr, comm_len, bounded_text}
use slurm_tracer.Record.{Record, new_record}

abbrev pub event_kill : ℕ
event_kill = 1

pub record OomEvent : Type 0 where
  pub hdr : EventHdr
  pub comm : Bytes

-- sizeof(st_oom_event): a header of 32 bytes, and 16 bytes.
abbrev pub oom_event_size : ℕ
oom_event_size = 48

kill_record : OomEvent → Record → Record
kill_record e r = record r {
  event_type = codes "oom_kill";
  metric = codes "oom.kill";
  value = 1;
  unit = codes "count";
  probe = codes "oom";
  ts_ns = e.hdr.ts_ns;
  cgroup_id = e.hdr.cgroup_id;
  uid = some e.hdr.uid;
  pid = e.hdr.pid;
  tid = e.hdr.tid;
  comm = bounded_text e.comm comm_len;
}

unfoldable pub translate : OomEvent → Record → Option Record
unfolding kill_record
translate e r = if e.hdr.type == event_kill then some (kill_record e r) else none

-- What `on_event` emits.
unfoldable pub on_event : ℕ → OomEvent → Option Record
unfolding translate
on_event len e = if ltb len oom_event_size then none else translate e new_record

-- One record for each whole event of a kill, with the victim's cgroup and process, and none for a short
-- event or one of another type.
pub on_event_kills :
    (len : ℕ) (e : OomEvent)
    → (oom_event_size ≤ len
        → e.hdr.type ≡ event_kill
        → (r : Record) × (on_event len e ≡ some r)
          × (r.metric ≡ codes "oom.kill")
          × (r.cgroup_id ≡ e.hdr.cgroup_id)
          × (r.pid ≡ e.hdr.pid)
          × (r.comm ≡ bounded_text e.comm comm_len))
      × (len < oom_event_size → on_event len e ≡ none)
      × (e.hdr.type ≢ event_kill → on_event len e ≡ none)
unfolding on_event
on_event_kills len e = (
  λ h k. (kill_record e new_record, ground arith, refl, refl, refl, refl),
  λ h. ground arith,
  λ h. ground arith,
)
