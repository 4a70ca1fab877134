-- ===== src/Daemon.antt =====
-- The probes and sinks of Daemon (src/core/daemon.h, daemon.cpp), which come and go at the start and at a
-- reload. A method returns the daemon with the calls that it makes of components and of the linker.
pub mod Taken
pub mod Bound
pub mod Polled
pub mod Mapped
pub mod Start
pub mod Reload
pub mod Run
pub mod Running
pub mod Tests
use slurm_tracer.Common.{
  ℕ, Bool, true, false, not, ◌&&◌, List, [], ◌∷◌, ◌++◌, map, Option, none, some, ◌==◌,
  if◌then◌else◌,
}
use slurm_tracer.Text.{Bytes, same}
use slurm_tracer.Record.{Record}
use slurm_tracer.Config.{ComponentConfig, Config, plugin_of}
use slurm_tracer.BpfProbe.{BpfProbe, OpCall, detach}
use slurm_tracer.Pipeline.{Pipeline, set_sinks}
use slurm_tracer.EventLoop.{EventLoop, new_loop, Bpf, add, remove}
use slurm_tracer.PluginLoader.{
  Linker, DlCall, PluginLoader, new_loader, Loaded, load_probe, load_sink, unload_probe,
  unload_sink,
}

-- `InstanceEmitter::emit`: the record that goes on to the pipeline.
unfoldable pub relabel : Bytes → Record → Record
relabel id r = record r { probe = id }

pub record LoadedSink : Type 0 where
  pub id : Bytes
  pub sink : ℕ

pub record LoadedProbe : Type 0 where
  pub id : Bytes
  pub probe : ℕ
  pub emitter : ℕ

-- The cgroup watcher is the life of its skeleton; what it does with events is in Attribution/Watcher.antt.
-- The resolver stands in the pipeline's state, once there is one.
pub record Daemon : Type 0 where
  pub config : Config
  pub config_path : Bytes
  pub cgroup_watcher : Option BpfProbe
  pub loader : PluginLoader
  pub sinks : List LoadedSink
  pub probes : List LoadedProbe
  pub pipeline : Option Pipeline
  pub loop : EventLoop

-- What the surroundings do during one call: the linker and libbpf, whether a probe opens, loads and
-- attaches, and where the new emitter is allocated.
pub record Machine : Type 0 where
  pub linker : Linker
  pub bpf : Bpf
  pub opens : ℕ → ComponentConfig → Bool
  pub loads : ℕ → Bool
  pub attaches : ℕ → Bool
  pub new_emitter : ℕ

-- A call of a probe's `detach`, of a sink's `flush`, of the factory that creates an instance, of a destructor,
-- of the linker, or of the watcher's skeleton.
pub data Call : Type 0 where
  detached flushed created destroyed : ℕ → Call
  linked : DlCall → Call
  operated : OpCall → Call

unfoldable pub new_daemon : Config → Bytes → Daemon
new_daemon config config_path = record {
  config = config;
  config_path = config_path;
  cgroup_watcher = none;
  loader = new_loader config.plugin_dir;
  sinks = [];
  probes = [];
  pipeline = none;
  loop = new_loop;
}

abbrev pub detach_watcher : Option BpfProbe → Option BpfProbe × List OpCall
detach_watcher none = (none, [])
detach_watcher (some w) = let (w', calls) = detach w in (some w', calls)

-- The body of `~Daemon`. What its members' destructors do after it is not modelled.
unfoldable pub destruct : Daemon → Daemon × List Call
destruct d =
    let (w, calls) = detach_watcher d.cgroup_watcher in
    (record d { cgroup_watcher = w }, map operated calls ++ map (λ p. detached p.probe) d.probes)

unfoldable pub wire_sinks : Daemon → Daemon
wire_sinks d = elim d.pipeline [
  | none ↦ d
  | some p ↦ record d { pipeline = some (set_sinks p (map (λ s. s.sink) d.sinks)) }
]

unfoldable pub add_sink : Machine → Daemon → Bytes → ComponentConfig → Daemon × List Call
unfolding wire_sinks
add_sink m d id config =
    let l = load_sink m.linker d.loader id (plugin_of id config) config in
    elim l.component [
      | none ↦ (record d { loader = l.loader }, map linked l.calls)
      | some sink ↦ (
        wire_sinks (record d {
          loader = l.loader;
          sinks = d.sinks ++ record { id = id; sink = sink } ∷ [];
        }),
        map linked l.calls ++ created sink ∷ [],
      )
    ]

-- `find_if` by id, with the `erase` of what it finds.
unfoldable pub take_sink : Bytes → List LoadedSink → Option (LoadedSink × List LoadedSink)
take_sink id [] = none
take_sink id (s ∷ ss) =
    let rest = take_sink id ss in
    if same s.id id
    then some (s, ss)
    else (elim rest [ none ↦ none | some (t, ts) ↦ some (t, s ∷ ts) ])

unfoldable pub remove_sink : Daemon → Bytes → Daemon × List Call
unfolding wire_sinks
remove_sink d id = elim (take_sink id d.sinks) [
  | none ↦ (d, [])
  | some (doomed, rest) ↦
      let (loader, calls) = unload_sink d.loader id in
      let wired = wire_sinks (record d { sinks = rest }) in
      (
        record wired { loader = loader },
        flushed doomed.sink ∷ destroyed doomed.sink ∷ map linked calls,
      )
]

unfoldable pub take_probe : Bytes → List LoadedProbe → Option (LoadedProbe × List LoadedProbe)
take_probe id [] = none
take_probe id (p ∷ ps) =
    let rest = take_probe id ps in
    if same p.id id
    then some (p, ps)
    else (elim rest [ none ↦ none | some (q, qs) ↦ some (q, p ∷ qs) ])

-- The probe is given up: destroyed, and its plugin unloaded.
abbrev pub give_up : Daemon → PluginLoader → Bytes → ℕ → List Call → Daemon × List Call
give_up d loader id probe calls =
    let (unloaded, closing) = unload_probe loader id in
    (record d { loader = unloaded }, calls ++ (destroyed probe ∷ map linked closing))

unfoldable pub add_probe : Machine → Daemon → Bytes → ComponentConfig → Daemon × List Call
add_probe m d id config =
    let l = load_probe m.linker d.loader id (plugin_of id config) config in
    elim l.component [
      | none ↦ (record d { loader = l.loader }, map linked l.calls)
      | some probe ↦
          let calls = map linked l.calls ++ created probe ∷ [] in
          let (armed, loop) = add m.bpf d.loop probe m.new_emitter in
          if not (m.opens probe config && m.loads probe && m.attaches probe)
          then give_up d l.loader id probe calls
          else if not armed
          then give_up (record d { loop = loop }) l.loader id probe (calls ++ detached probe ∷ [])
          else (
            record d {
              loader = l.loader;
              loop = loop;
              probes = d.probes ++ record { id = id; probe = probe; emitter = m.new_emitter } ∷ [];
            },
            calls,
          )
    ]

-- `find_if` by address, with the `erase` of what it finds.
unfoldable pub take_address : ℕ → List LoadedProbe → Option (LoadedProbe × List LoadedProbe)
take_address probe [] = none
take_address probe (p ∷ ps) =
    let rest = take_address probe ps in
    if p.probe == probe
    then some (p, ps)
    else (elim rest [ none ↦ none | some (q, qs) ↦ some (q, p ∷ qs) ])

-- One round of the loop over the probes that the event loop dropped besides.
unfoldable pub forget : Daemon → ℕ → Daemon × List Call
forget d dead = elim (take_address dead d.probes) [
  | none ↦ (d, [])
  | some (p, rest) ↦
      let (loader, calls) = unload_probe d.loader p.id in
      (
        record d { loader = loader; probes = rest },
        detached p.probe ∷ destroyed p.probe ∷ map linked calls,
      )
]

unfoldable pub forget_all : Daemon → List ℕ → Daemon × List Call
unfolding forget
forget_all d [] = (d, [])
forget_all d (dead ∷ more) =
    let (d', calls) = forget d dead in
    let (last, later) = forget_all d' more in (last, calls ++ later)

unfoldable pub remove_probe : Machine → Daemon → Bytes → Daemon × List Call
unfolding forget_all
remove_probe m d id = elim (take_probe id d.probes) [
  | none ↦ (d, [])
  | some (p, rest) ↦
      let (also_dropped, loop) = remove m.bpf d.loop p.probe in
      let (loader, closing) = unload_probe d.loader id in
      let (last, calls) =
        forget_all (record d { loop = loop; loader = loader; probes = rest }) also_dropped in
      (last, detached p.probe ∷ destroyed p.probe ∷ (map linked closing ++ calls))
]
