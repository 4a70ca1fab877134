-- ===== src/Daemon/Start/Succeeds.antt =====
-- A start that finds what it needs returns true.
use slurm_tracer.Common.{ℕ, ◌≡◌, some}
use slurm_tracer.Text.{Bytes}
use slurm_tracer.Dict.{text_key, lookup}
use slurm_tracer.Attribution.Resolver.Bootstrap
use slurm_tracer.Config.{ComponentConfig, Config}
use slurm_tracer.Daemon.{Daemon}
use slurm_tracer.Daemon.Start.{Startup}
use slurm_tracer.Daemon.Start.Success.{Arms, Attaches}
use slurm_tracer.Daemon.Running.Sinks.{loaded_sink}
use slurm_tracer.Daemon.Running.Added.{loaded_probe}

-- What is there to be started: the watcher attaches, libbpf refuses no binding, and a sink and a probe of
-- the configuration are loaded, of which the probe opens, loads and attaches.
pub record Able (s : Startup) (d : Daemon) : Type 0 where
  pub watcher : Attaches s
  pub arms : (id : Bytes) → Arms (s.at_probe id).bpf
  pub sink_id : Bytes
  pub sink_config : ComponentConfig
  pub sink : ℕ
  pub has_sink : lookup sink_id d.config.sinks ≡ some sink_config
  pub loads_sink : loaded_sink (s.at_sink sink_id) d sink_id sink_config ≡ some sink
  pub probe_id : Bytes
  pub probe_config : ComponentConfig
  pub probe : ℕ
  pub has_probe : lookup probe_id d.config.probes ≡ some probe_config
  pub loads_probe : loaded_probe (s.at_probe probe_id) d probe_id probe_config ≡ some probe
