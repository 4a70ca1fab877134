-- ===== src/Daemon/Start.antt =====
-- `start` of Daemon, and `start_cgroup_watcher` (src/core/daemon.cpp).
pub mod Begun
pub mod Assembled
pub mod Outcome
pub mod Watched
pub mod Success
pub mod Succeeds
pub mod Tests
use slurm_tracer.Common.{
  ℕ, Bool, true, false, not, ◌&&◌, List, [], ◌∷◌, ◌++◌, map, Option, none, some, if◌then◌else◌,
}
use slurm_tracer.Text.{Bytes, codes, is_empty}
use slurm_tracer.Attribution.Files.{FileSystem}
use slurm_tracer.Attribution.Root.{discover_cgroup_root}
use slurm_tracer.Attribution.Resolver.{CgroupResolver, new_resolver, default_grace_ns}
use slurm_tracer.Attribution.Resolver.Bootstrap
use slurm_tracer.Config.{ComponentConfig, Config}
use slurm_tracer.Pipeline.{Options, new_pipeline}
use slurm_tracer.EventLoop.{Bpf, add}
use slurm_tracer.BpfProbe
use slurm_tracer.BpfProbe.{Ops, BpfProbe, Done, new_probe, open_skeleton, load, attach, detach}
use slurm_tracer.Daemon.{Daemon, Machine, Call, operated, wire_sinks, add_sink, add_probe}

-- What the surroundings do during the start: the files, the boot offset, the time of steady_clock, the
-- watcher's skeleton with the address of the watcher and of the pipeline, and for each id of a sink or a
-- probe what they do while it is added. `fuel` bounds the scan of the cgroup tree.
pub record Startup : Type 0 where
  pub fs : FileSystem
  pub fuel : ℕ
  pub offset : ℕ
  pub now : ℕ
  pub ops : Ops
  pub watcher : ℕ
  pub pipeline : ℕ
  pub bpf : Bpf
  pub at_sink : Bytes → Machine
  pub at_probe : Bytes → Machine

-- What a call returns, the daemon afterwards, and the calls that it makes.
pub record Started : Type 0 where
  pub ok : Bool
  pub daemon : Daemon
  pub calls : List Call

-- `open`, `load` and `attach`, of which the first that fails is the last.
unfoldable pub bring_up : Ops → BpfProbe → Done
bring_up ops p =
    let o = open_skeleton ops p in
    let l = load ops o.probe in
    let a = attach ops l.probe in
    if not o.ok
    then o
    else if not l.ok
    then record l { calls = o.calls ++ l.calls }
    else record a { calls = o.calls ++ (l.calls ++ a.calls) }

-- The destructor of the watcher detaches it; after a refused binding it is detached before that.
unfoldable pub start_cgroup_watcher : Startup → Daemon → Started
unfolding bring_up
start_cgroup_watcher s d =
    let up = bring_up s.ops new_probe in
    let (armed, loop) = add s.bpf d.loop s.watcher s.pipeline in
    let (gone, closing) = detach up.probe in
    let ends = closing ++ (detach gone).1 in
    if not up.ok
    then record {
      ok = false;
      daemon = record d { cgroup_watcher = none };
      calls = map operated (up.calls ++ closing);
    }
    else if not armed
    then record {
      ok = false;
      daemon = record d { cgroup_watcher = none; loop = loop };
      calls = map operated (up.calls ++ ends);
    }
    else record {
      ok = true;
      daemon = record d { cgroup_watcher = some up.probe; loop = loop };
      calls = map operated up.calls;
    }

-- The loops over the map of the sinks, and of the probes.
unfoldable pub add_sinks :
    (Bytes → Machine) → List (Bytes × ComponentConfig) → Daemon → Daemon × List Call
unfolding add_sink
add_sinks at [] d = (d, [])
add_sinks at ((id, config) ∷ rest) d =
    let (e, calls) = add_sink (at id) d id config in
    let (last, more) = add_sinks at rest e in (last, calls ++ more)

unfoldable pub add_probes :
    (Bytes → Machine) → List (Bytes × ComponentConfig) → Daemon → Daemon × List Call
unfolding add_probe
add_probes at [] d = (d, [])
add_probes at ((id, config) ∷ rest) d =
    let (e, calls) = add_probe (at id) d id config in
    let (last, more) = add_probes at rest e in (last, calls ++ more)

abbrev pub options : Config → Options
options c = record {
  node = c.node;
  cluster = c.cluster;
  batch_size = c.batch_size;
  flush_interval = c.flush_interval;
}

abbrev pub has_none {ℓ} : {A : Type ℓ} → List A → Bool
has_none [] = true
has_none (x ∷ xs) = false

-- From the sinks on, once the resolver has started.
unfoldable pub assemble : Startup → Daemon → CgroupResolver → Started
unfolding add_sinks start_cgroup_watcher add_probes
assemble s d resolver =
    let (with_sinks, calls) = add_sinks s.at_sink d.config.sinks d in
    let wired =
      wire_sinks (record with_sinks {
        pipeline = some (new_pipeline (options d.config) [] resolver s.now);
      }) in
    let watched = start_cgroup_watcher s wired in
    let (last, more) = add_probes s.at_probe d.config.probes watched.daemon in
    if has_none with_sinks.sinks
    then record { ok = false; daemon = with_sinks; calls = calls }
    else if not watched.ok
    then record watched { calls = calls ++ watched.calls }
    else record {
      ok = not (has_none last.probes);
      daemon = last;
      calls = calls ++ (watched.calls ++ more);
    }

abbrev pub refuses : Daemon → Started
refuses d = record { ok = false; daemon = d; calls = [] }

abbrev pub default_cgroup_conf : Bytes
default_cgroup_conf = codes "/etc/slurm/cgroup.conf"

-- `none` is fuel run out.
unfoldable pub start : Startup → Daemon → Option Started
unfolding assemble
start s d =
    if is_empty d.config.plugin_dir
    then some (refuses d)
    else (elim (discover_cgroup_root s.fs d.config.cgroup_root default_cgroup_conf) [
      | none ↦ some (refuses d)
      | some root ↦
          elim (Bootstrap.start s.fuel s.fs s.offset (new_resolver root default_grace_ns)) [
            | none ↦ none
            | some (resolver, false) ↦ some (refuses d)
            | some (resolver, true) ↦ some (assemble s d resolver)
          ]
    ])
