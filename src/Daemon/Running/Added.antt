-- ===== src/Daemon/Running/Added.antt =====
-- `add_probe` on the map of the running probes.
use slurm_tracer.Common.{
  ℕ, ◌≡◌, ◌⊎◌, refl, inl, inr, ◌&&◌, [], ◌∷◌, ◌++◌, Option, none, some, arith, if◌then◌else◌,
  Option-cases, Bool-cases,
}
use slurm_tracer.Text.{Bytes}
use slurm_tracer.Config.{ComponentConfig, plugin_of}
use slurm_tracer.PluginLoader.{Linker, PluginLoader, load_probe, unload_probe}
use slurm_tracer.EventLoop.{add}
use slurm_tracer.Daemon.{Daemon, Machine, add_probe}
use slurm_tracer.Daemon.Running.{probes_running, probes_running-append}
use slurm_tracer.Daemon.Running.Probes.{ProbesOnly}

-- The address of a probe that is loaded, and that opens, loads and attaches.
unfoldable pub loaded_probe : Machine → Daemon → Bytes → ComponentConfig → Option ℕ
loaded_probe m d id config =
    elim (load_probe m.linker d.loader id (plugin_of id config) config).component [
      | none ↦ none
      | some c ↦ if m.opens c config && m.loads c && m.attaches c then some c else none
    ]

load_probe_dir :
    (ld : Linker) (l : PluginLoader) (id plugin : Bytes) (config : ComponentConfig)
    → (load_probe ld l id plugin config).loader.plugin_dir ≡ l.plugin_dir
unfolding load_probe
load_probe_dir ld l id plugin config = ground arith

-- What it does to the map, and what it leaves: the map is as before, or has one more probe at the end.
pub record ProbeStep (d e : Daemon) (id : Bytes) (loaded : Option ℕ) : Type 0 where
  pub running :
      (probes_running e.probes ≡ probes_running d.probes)
      ⊎ ((a : ℕ) × (loaded ≡ some a)
          × (probes_running e.probes ≡ probes_running d.probes ++ (id, a) ∷ []))
  pub only : ProbesOnly d e

pub add_probe_lem :
    (m : Machine) (d : Daemon) (id : Bytes) (config : ComponentConfig)
    → ProbeStep d (add_probe m d id config).0 id (loaded_probe m d id config)
unfolding add_probe loaded_probe unload_probe
add_probe_lem m d id config =
    let l = load_probe m.linker d.loader id (plugin_of id config) config in
    let dir = load_probe_dir m.linker d.loader id (plugin_of id config) config in
    elim (Option-cases l.component) [
      | inl e ↦
          rw (e, add_probe)
            (record {
              running = inl refl;
              only = record {
                config = refl;
                config_path = refl;
                sinks = refl;
                pipeline = refl;
                plugin_dir = dir;
              };
            })
      | inr (c, e) ↦ elim (Bool-cases (m.opens c config && m.loads c && m.attaches c)) [
        | inr u ↦
            rw (e, u, add_probe)
              (record {
                running = inl refl;
                only = record {
                  config = refl;
                  config_path = refl;
                  sinks = refl;
                  pipeline = refl;
                  plugin_dir = dir;
                };
              })
        | inl u ↦ elim (Bool-cases (add m.bpf d.loop c m.new_emitter).0) [
          | inr v ↦
              rw (e, u, v, add_probe)
                (record {
                  running = inl refl;
                  only = record {
                    config = refl;
                    config_path = refl;
                    sinks = refl;
                    pipeline = refl;
                    plugin_dir = dir;
                  };
                })
          | inl v ↦
              rw (e, u, v, add_probe, loaded_probe)
                (record {
                  running = inr (
                    c,
                    refl,
                    probes_running-append d.probes
                        (record { id = id; probe = c; emitter = m.new_emitter } ∷ []),
                  );
                  only = record {
                    config = refl;
                    config_path = refl;
                    sinks = refl;
                    pipeline = refl;
                    plugin_dir = dir;
                  };
                })
        ]
      ]
    ]
