-- ===== src/Daemon/Start/Tests.antt =====
-- A start with one sink and one probe.
use slurm_tracer.Common.{◌≡◌, refl, true, false, [], ◌∷◌, Option, none, some, List, map}
use slurm_tracer.Text.{codes, same}
use slurm_tracer.Dict.{text_key, lookup, insert}
use slurm_tracer.Attribution.Files.{FileSystem, is_dir}
use slurm_tracer.Attribution.Root.{discover_cgroup_root}
use slurm_tracer.Attribution.Resolver.{new_resolver}
use slurm_tracer.Attribution.Resolver.Bootstrap
use slurm_tracer.Attribution.Resolver.Bootstrap.{children_of}
use slurm_tracer.Config.{Config, default_config, get, plugin_of}
use slurm_tracer.EventLoop.{add}
use slurm_tracer.PluginLoader.{Linker, load_sink, load_probe, open_plugin, create}
use slurm_tracer.BpfProbe.{OpCall, open_skeleton, load, attach}
use slurm_tracer.BpfProbe.Protocol.{protocol}
use slurm_tracer.Daemon.Start.Watched.{start_cgroup_watcher-Closes}
use slurm_tracer.Daemon.{Machine, operated, new_daemon, add_sink, add_probe}
use slurm_tracer.Daemon.Start.{
  Startup, Started, start, assemble, add_sinks, add_probes, start_cgroup_watcher, bring_up,
}

abbrev linker : Linker
linker = record {
  dlopen = λ path. some 5;
  entry = λ handle symbol. some ((codes "a", λ config. some 4) ∷ []);
}

abbrev pub machine : Machine
machine = record {
  linker = linker;
  bpf = record { ring_fd = λ probe. some 8; arms = λ rb fd. true };
  opens = λ probe config. true;
  loads = λ probe. true;
  attaches = λ probe. true;
  new_emitter = 40;
}

-- A root without directories below it.
abbrev files : FileSystem
files = record {
  stat = λ path.
      some (record { is_directory = true; ino = 1; ctim = record { tv_sec = 0; tv_nsec = 0 } });
  read_dir = λ path. none;
  read_lines = λ path. none;
  glob = λ pattern. none;
}

abbrev pub startup : Startup
startup = record {
  fs = files;
  fuel = 2;
  offset = 0;
  now = 0;
  ops = record { opens = some 3; loads = λ s. true; attaches = λ s. true };
  watcher = 30;
  pipeline = 31;
  bpf = record { ring_fd = λ probe. some 8; arms = λ rb fd. true };
  at_sink = λ id. machine;
  at_probe = λ id. machine;
}

abbrev config : Config
config = record default_config {
  plugin_dir = codes "/p";
  cgroup_root = codes "/cg";
  sinks = (codes "a", []) ∷ [];
  probes = (codes "a", []) ∷ [];
}

abbrev Succeeds : Option Started → Type 0
Succeeds none = ⊥
Succeeds (some st) = st.ok ≡ true

start_run : Succeeds (start startup (new_daemon config []))
unfolding start new_daemon discover_cgroup_root is_dir Bootstrap.start Bootstrap.scan Bootstrap.walk
    new_resolver Bootstrap.visit same children_of assemble add_sinks add_sink load_sink open_plugin
    create lookup plugin_of get start_cgroup_watcher bring_up open_skeleton load attach add
    add_probes add_probe load_probe insert
start_run = refl

-- The watcher's programs do not attach.
abbrev unattached : Startup
unattached = record startup {
  ops = record { opens = some 3; loads = λ s. true; attaches = λ s. false };
}

start_cgroup_watcher-Closes_example :
    (calls : List OpCall) × ((start_cgroup_watcher unattached (new_daemon config [])).calls
      ≡ map operated calls)
    × (protocol none calls ≡ some none)
unfolding start_cgroup_watcher bring_up open_skeleton load attach new_daemon
start_cgroup_watcher-Closes_example =
    let (calls, made, (kept, _), _) =
      start_cgroup_watcher-Closes unattached (new_daemon config []) in
    (calls, made, kept)
