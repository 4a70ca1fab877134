-- ===== src/Daemon/Run/Tests.antt =====
-- A run of two rounds with two records.
use slurm_tracer.Common.{◌≡◌, refl, inl, true, [], ◌∷◌, none, some, List}
use slurm_tracer.Text.{codes}
use slurm_tracer.Record.{new_record}
use slurm_tracer.Clock.{Clocks}
use slurm_tracer.Config.{default_config}
use slurm_tracer.Pipeline.{Pipeline}
use slurm_tracer.Pipeline.Delivery.{received}
use slurm_tracer.EventLoop.{poll, events, interrupted, new_loop}
use slurm_tracer.Daemon.{Daemon}
use slurm_tracer.Daemon.Reload.Applied.{IsSettled}
use slurm_tracer.Daemon.Run.{Round, Ended, emitted, run}
use slurm_tracer.Config.File.{missing}
use slurm_tracer.Daemon.Reload.Tests.{surroundings, one_sink, one_sink-IsSettled}
use slurm_tracer.Daemon.Run.Ends.{run_ends}
use slurm_tracer.Daemon.Run.Labels.{labels}
use slurm_tracer.Daemon.Run.Given.{sink_calls, run_records, run_gives_all}

abbrev pipeline : Pipeline
pipeline = record {
  opt = record { node = codes "n1"; cluster = codes "c"; batch_size = 64; flush_interval = 1_000 };
  sinks = 10 ∷ [];
  resolver = record {
    root = codes "/cg";
    grace_ns = 1_000;
    entries = [];
    stats = record { hits = 0; misses = 0; rescans = 0; stale = 0 };
  };
  batch = [];
  last_flush = 0;
  user_cache = [];
  stats = record { records = 0; unattributed = 0 };
}

abbrev daemon : Daemon
daemon = record {
  config = default_config;
  config_path = [];
  cgroup_watcher = none;
  loader = record { plugin_dir = []; probe_handles = []; sink_handles = [] };
  sinks = [];
  probes = [];
  pipeline = some pipeline;
  loop = new_loop;
}

abbrev clocks : Clocks
clocks = record {
  monotonic = record { tv_sec = 1; tv_nsec = 0 };
  realtime = record { tv_sec = 9; tv_nsec = 0 };
}

abbrev one_record : Round
one_record = record {
  env = record { passwd = λ uid. none; boot_offset = 5 };
  arrivals = emitted (codes "oom") (record new_record { ts_ns = 3 }) ∷ [];
  polled = events 1;
  clocks = clocks;
  now = 7;
  reload = none;
}

abbrev rounds : List Round
rounds = one_record ∷ record one_record { polled = interrupted } ∷ []

run_gives_all_example :
    (ended : Ended) × (run 99 rounds daemon ≡ some ended)
    × (received 10 (sink_calls ended.calls) ≡ run_records new_loop rounds pipeline)
    × (labels (run_records new_loop rounds pipeline) ≡ codes "oom" ∷ codes "oom" ∷ [])
unfolding poll
run_gives_all_example =
    run_gives_all 10 99 rounds daemon pipeline refl (inl (refl, tt)) (refl, (refl, tt))

-- The second round ends with a reload that adds a sink, and the last finds no file.
abbrev reloading : Daemon
reloading = record one_sink { pipeline = some pipeline }

reloading-IsSettled : IsSettled reloading
reloading-IsSettled = record {
  sorted_probes = h.sorted_probes;
  sorted_sinks = h.sorted_sinks;
  unique_probes = h.unique_probes;
  unique_sinks = h.unique_sinks;
  configured_probes = h.configured_probes;
  configured_sinks = h.configured_sinks;
}
  where
    h : IsSettled one_sink
    h = one_sink-IsSettled

abbrev reloads : List Round
reloads =
    one_record
    ∷ record one_record { reload = some surroundings }
    ∷ record one_record { reload = some (record surroundings { files = λ path. missing }) }
    ∷ []

run_ends_example :
    (ended : Ended) × (run 99 reloads reloading ≡ some ended) × (ended.success ≡ true)
run_ends_example =
    let (ended, runs, settled, succeeds) =
      run_ends 99 reloads reloading reloading-IsSettled (tt, ((λ e. cc), ((λ e. cc), tt))) in
    (ended, runs, succeeds ((λ e. cc), ((λ e. cc), ((λ e. cc), tt))))
