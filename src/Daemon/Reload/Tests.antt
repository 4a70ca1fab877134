-- ===== src/Daemon/Reload/Tests.antt =====
-- A daemon with one sink, whose file names another besides.
use slurm_tracer.Common.{◌≡◌, refl, ◌⊎◌, arith, true, false, [], ◌∷◌, none, some, List}
use slurm_tracer.Text.{codes, same, before, lower}
use slurm_tracer.Dict.{text_key, lookup, insert, retain}
use slurm_tracer.Config.{
  Config, ConfigDiff, default_config, get, get_bool, plugin_of, differs, diff_components,
  diff_for_reload, same_fixed, set,
}
use slurm_tracer.Config.File.{
  Json, parsed, obj, member, end, load_config_file, load_root, raises, load_sections, load_section,
  load_sinks, load_components, load_component, drop_disabled, stringify,
}
use slurm_tracer.EventLoop.{new_loop}
use slurm_tracer.PluginLoader.{load_sink, open_plugin, create}
use slurm_tracer.Daemon.{Daemon, Machine, Call}
use slurm_tracer.Daemon.Reload.{Surroundings, reload_config}
use slurm_tracer.Daemon.Reload.Applied.{IsSettled}
use slurm_tracer.Daemon.Reload.Settled.{reload_config-IsSettled, reload_config_lem}
use slurm_tracer.Daemon.Running.{sinks_running}
use slurm_tracer.Daemon.Running.Sinks.{IsWired}

abbrev gives_4 : Machine
gives_4 = record {
  linker = record {
    dlopen = λ path. some 5;
    entry = λ handle symbol. some ((codes "b", λ config. some 4) ∷ []);
  };
  bpf = record { ring_fd = λ probe. none; arms = λ rb fd. true };
  opens = λ probe config. true;
  loads = λ probe. true;
  attaches = λ probe. true;
  new_emitter = 40;
}

-- {"sinks": {"a": {}, "b": {}}}
abbrev file : Json
file = obj (
    member (codes "sinks") (obj (member (codes "a") (obj end) (member (codes "b") (obj end) end)))
      end)

abbrev pub surroundings : Surroundings
surroundings = record {
  printer = record { dump = λ v. []; float_text = λ x. [] };
  files = λ path. parsed file;
  at_sink = λ id. gives_4;
  at_removal = λ id. gives_4;
  at_probe = λ id. gives_4;
}

abbrev pub one_sink : Daemon
one_sink = record {
  config = record default_config { sinks = (codes "a", []) ∷ [] };
  config_path = codes "f";
  cgroup_watcher = none;
  loader = record { plugin_dir = []; probe_handles = []; sink_handles = (codes "a", 5) ∷ [] };
  sinks = record { id = codes "a"; sink = 1 } ∷ [];
  probes = [];
  pipeline = none;
  loop = new_loop;
}

abbrev two_sinks : Config
two_sinks = record default_config { sinks = (codes "a", []) ∷ (codes "b", []) ∷ [] }

pub one_sink-IsSettled : IsSettled one_sink
unfolding lookup same
one_sink-IsSettled = record {
  sorted_probes = tt;
  sorted_sinks = (tt, tt);
  unique_probes = tt;
  unique_sinks = (refl, tt);
  configured_probes = λ x h. refl;
  configured_sinks = λ x h. ground (arith, h);
}

abbrev two_diff : ConfigDiff
two_diff = record {
  added_probes = [];
  removed_probes = [];
  added_sinks = codes "b" ∷ [];
  removed_sinks = [];
}

reload_config-IsSettled_example :
    ((false ≡ false) × (parsed file ≡ raises) × (reload_config surroundings one_sink ≡ none))
    ⊎ ((e : Daemon) × (calls : List Call) × (reload_config surroundings one_sink ≡ some (e, calls))
        × IsSettled e
        × (IsWired one_sink → IsWired e)
        × (e.config_path ≡ codes "f"))
reload_config-IsSettled_example = reload_config-IsSettled surroundings one_sink one_sink-IsSettled

reload_config_example :
    (e : Daemon) × (calls : List Call) × (reload_config surroundings one_sink ≡ some (e, calls))
    × (lookup (codes "a") (sinks_running e.sinks) ≡ some 1)
    × (lookup (codes "b") (sinks_running e.sinks) ≡ some 4)
unfolding load_config_file load_root load_sections load_section load_sinks load_components
    load_component drop_disabled same insert lookup before retain get_bool set lower stringify
    diff_for_reload same_fixed diff_components differs plugin_of get load_sink open_plugin create
reload_config_example =
    let (e, calls, runs, sinks, _) =
      reload_config_lem surroundings one_sink two_sinks two_diff one_sink-IsSettled refl refl
        refl in
    (e, calls, runs, sinks (codes "a"), sinks (codes "b"))

-- A file with a number that no double holds.
reload_config_raises_run :
    reload_config (record surroundings { files = λ path. raises }) one_sink ≡ none
unfolding load_config_file reload_config
reload_config_raises_run = refl
