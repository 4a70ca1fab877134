-- ===== src/Main/Program/Tests.antt =====
-- The program with one file on its command line: it starts with a sink and a probe, and reads the file again.
use slurm_tracer.Common.{◌≡◌, refl, [], ◌∷◌, none, some}
use slurm_tracer.Text.{codes, same}
use slurm_tracer.Config.File.{
  Source, malformed, raises, load_config_file, Json, str, parsed, obj, member, end,
}
use slurm_tracer.EventLoop.{events}
use slurm_tracer.Daemon.Reload.{Surroundings}
use slurm_tracer.Daemon.Start.Tests.{machine, startup}
use slurm_tracer.Daemon.Run.{Round}
use slurm_tracer.Main.{parse_args}
use slurm_tracer.Main.Program.{World, main}

-- {"node": {"plugin_dir": "/p"}, "slurm": {"cgroup_root": "/cg"}, "sinks": {"a": {}}, "probes": {"a": {}}}
abbrev file : Json
file = obj (
    member (codes "node") (obj (member (codes "plugin_dir") (str (codes "/p")) end)) (
      member (codes "slurm") (obj (member (codes "cgroup_root") (str (codes "/cg")) end)) (
        member (codes "sinks") (obj (member (codes "a") (obj end) end))
          (member (codes "probes") (obj (member (codes "a") (obj end) end)) end))))

abbrev surroundings : Surroundings
surroundings = record {
  printer = record { dump = λ v. []; float_text = λ x. [] };
  files = λ path. parsed file;
  at_sink = λ id. machine;
  at_removal = λ id. machine;
  at_probe = λ id. machine;
}

abbrev reloading : Round
reloading = record {
  env = record { passwd = λ uid. none; boot_offset = 5 };
  arrivals = [];
  polled = events 0;
  clocks = record {
    monotonic = record { tv_sec = 1; tv_nsec = 0 };
    realtime = record { tv_sec = 9; tv_nsec = 0 };
  };
  now = 7;
  reload = some surroundings;
}

abbrev world : World
world = record {
  printer = record { dump = λ v. []; float_text = λ x. [] };
  files = λ path. parsed file;
  startup = startup;
  rounds = reloading ∷ [];
  at = 9;
}

-- The file is refused with the parser's own error, and with another exception.
abbrev with_file : Source → World
with_file source = record world { files = λ path. source }

malformed_run : main (with_file malformed) (codes "--config" ∷ codes "f" ∷ []) ≡ some 1
unfolding main parse_args load_config_file same
malformed_run = refl

raises_run : main (with_file raises) (codes "--config" ∷ codes "f" ∷ []) ≡ none
unfolding main parse_args load_config_file same
raises_run = refl
