-- ===== src/Probes/Tests.antt =====
-- The two probes and the clock, on concrete events.
use slurm_tracer.Common.{◌≡◌, ◌≤◌, refl, [], ◌∷◌, none, some, arith}
use slurm_tracer.Text.{codes, same}
use slurm_tracer.Text.Decimal.{to_string}
use slurm_tracer.Words.{add64}
use slurm_tracer.Events.{bounded_text}
use slurm_tracer.Record.{Record, new_record}
use slurm_tracer.Clock.{
  Clocks, monotonic_ns, realtime_ns, boot_offset_ns, boot_offset_sampled_once,
  boot_offset-add-monotonic,
}
use slurm_tracer.Record.Json.{document, put, put_all}
use slurm_tracer.Record.Json.Injective.{last_value, document-injective}
use slurm_tracer.Probes.Oom
use slurm_tracer.Probes.ProcLifecycle.{
  ProcEvent, event_exit, proc_event_size, translate, on_event, translate-wait_status,
  on_event_stamps,
}

-- A boot 90 seconds ago.
abbrev clocks : Clocks
clocks = record {
  monotonic = record { tv_sec = 90; tv_nsec = 5 };
  realtime = record { tv_sec = 1_700_000_000; tv_nsec = 7 };
}

abbrev later : Clocks
later = record {
  monotonic = record { tv_sec = 100; tv_nsec = 0 };
  realtime = record { tv_sec = 1_700_000_020; tv_nsec = 0 };
}

boot_offset_sampled_once_run :
    boot_offset_ns (boot_offset_ns none clocks).1 later ≡ boot_offset_ns none clocks
boot_offset_sampled_once_run = boot_offset_sampled_once none clocks later

boot_offset-add_run :
    add64 (monotonic_ns clocks) (boot_offset_ns none clocks).0 ≡ realtime_ns clocks
boot_offset-add_run = boot_offset-add-monotonic clocks

-- Two records that a document does not tell apart, by the attribute that is replaced.
abbrev replaced : Record
replaced = record new_record {
  attrs = (codes "signal", codes "9") ∷ (codes "signal", codes "15") ∷ [];
}

abbrev once : Record
once = record new_record { attrs = (codes "signal", codes "15") ∷ [] }

document-injective_example :
    last_value (codes "signal") replaced.attrs ≡ last_value (codes "signal") once.attrs
unfolding document put_all put same
document-injective_example =
    let (_, _, _, _, _, _, _, _, _, _, _, _, _, _, _, _, _, _, _, attrs) =
      document-injective replaced once refl in
    attrs (codes "signal")

-- The end of process 41 by signal 9, with a core.
abbrev killed : ProcEvent
killed = record {
  hdr = record { ts_ns = 77; cgroup_id = 5; type = event_exit; pid = 41; tid = 41; uid = 1_000 };
  exit_code = 137;
  comm = codes "python";
}

translate-wait_status_example :
    (r : Record) × (translate killed new_record ≡ some r)
    × (r.value ≡ 0)
    × (r.attrs ≡ (codes "signal", to_string 9) ∷ [])
translate-wait_status_example =
    let (r, e, value, _, _, signal) =
      translate-wait_status killed 0 1 9 refl (omega arith) (omega arith) (omega arith)
        (omega arith) in
    (r, e, value, signal (λ z. omega (arith, z)))

abbrev killed_record : Record
killed_record = record new_record {
  probe = codes "proc_lifecycle";
  ts_ns = 77;
  cgroup_id = 5;
  uid = some 1_000;
  pid = 41;
  tid = 41;
  comm = codes "python";
  event_type = codes "exit";
  metric = codes "proc.exit";
  value = 0;
  unit = codes "exit_status";
  attrs = (codes "signal", to_string 9) ∷ [];
}

on_event_stamps_run : proc_event_size ≤ proc_event_size
unfolding on_event translate bounded_text
on_event_stamps_run = (on_event_stamps proc_event_size killed killed_record refl).0

on_event_kills_run : Oom.on_event 20 (record { hdr = killed.hdr; comm = codes "python" }) ≡ none
on_event_kills_run =
    (Oom.on_event_kills 20 (record { hdr = killed.hdr; comm = codes "python" })).1 (omega arith)
