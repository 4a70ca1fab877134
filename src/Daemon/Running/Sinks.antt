-- ===== src/Daemon/Running/Sinks.antt =====
-- `add_sink` and `remove_sink` on the map of the running sinks, and what else they leave alone.
use mathlib.Core.Option.{some-injective}
use slurm_tracer.Common.{
  ℕ, ◌≡◌, refl, sym, ap, ◌∙◌, inl, inr, List, [], ◌∷◌, ◌++◌, append-nil, map, Option, none, some,
  arith, Option-cases, Bool-cases,
}
use slurm_tracer.Text.{Bytes, same}
use slurm_tracer.Dict.{text_key, erase}
use slurm_tracer.Config.{ComponentConfig, plugin_of}
use slurm_tracer.Pipeline.{Pipeline, set_sinks}
use slurm_tracer.PluginLoader.{Linker, PluginLoader, load_sink, unload_sink}
use slurm_tracer.Daemon.{LoadedSink, Daemon, Machine, wire_sinks, add_sink, take_sink, remove_sink}
use slurm_tracer.Daemon.Running.{Running, sinks_running, sinks_running-append}

-- The sinks that the pipeline holds are those that the daemon holds.
abbrev pub IsWired : Daemon → Type 0
IsWired d = (p : Pipeline) → d.pipeline ≡ some p → p.sinks ≡ map (λ s. s.sink) d.sinks

-- What an operation on the sinks leaves as it was.
pub record SinksOnly (d e : Daemon) : Type 0 where
  pub config : e.config ≡ d.config
  pub config_path : e.config_path ≡ d.config_path
  pub probes : e.probes ≡ d.probes
  pub plugin_dir : e.loader.plugin_dir ≡ d.loader.plugin_dir

pub SinksOnly-refl : (d : Daemon) → SinksOnly d d
SinksOnly-refl d = record { config = refl; config_path = refl; probes = refl; plugin_dir = refl }

pub SinksOnly-trans : (d e f : Daemon) → SinksOnly d e → SinksOnly e f → SinksOnly d f
SinksOnly-trans d e f h k = record {
  config = k.config ∙ h.config;
  config_path = k.config_path ∙ h.config_path;
  probes = k.probes ∙ h.probes;
  plugin_dir = k.plugin_dir ∙ h.plugin_dir;
}

-- Wiring changes nothing but the pipeline.
pub wire_sinks_lem :
    (d : Daemon)
    → ((wire_sinks d).sinks ≡ d.sinks) × IsWired (wire_sinks d) × SinksOnly d (wire_sinks d)
unfolding wire_sinks set_sinks
wire_sinks_lem d = elim (Option-cases d.pipeline) [
  | inl e ↦
      rw (e, wire_sinks)
        (
          refl,
          (λ p h. absurd (ground (arith, e, h))),
          record { config = refl; config_path = refl; probes = refl; plugin_dir = refl },
        )
  | inr (p, e) ↦
      rw (e, wire_sinks)
        (
          refl,
          (λ q h. ap (λ (x : Pipeline). x.sinks) (sym (some-injective _ q h))),
          record { config = refl; config_path = refl; probes = refl; plugin_dir = refl },
        )
]

abbrev pub loaded_sink : Machine → Daemon → Bytes → ComponentConfig → Option ℕ
loaded_sink m d id config = (load_sink m.linker d.loader id (plugin_of id config) config).component

abbrev pub under : Bytes → Option ℕ → Running
under id none = []
under id (some a) = (id, a) ∷ []

load_sink_dir :
    (ld : Linker) (l : PluginLoader) (id plugin : Bytes) (config : ComponentConfig)
    → (load_sink ld l id plugin config).loader.plugin_dir ≡ l.plugin_dir
unfolding load_sink
load_sink_dir ld l id plugin config = ground arith

-- What an operation does to the map, what it leaves, and that it keeps the pipeline wired.
pub record SinkStep (d e : Daemon) (m : Running) : Type 0 where
  pub running : sinks_running e.sinks ≡ m
  pub only : SinksOnly d e
  pub wired : IsWired d → IsWired e

pub add_sink_lem :
    (m : Machine) (d : Daemon) (id : Bytes) (config : ComponentConfig)
    → SinkStep d
        (add_sink m d id config).0
        (sinks_running d.sinks ++ under id (loaded_sink m d id config))
unfolding add_sink
add_sink_lem m d id config =
    let l = load_sink m.linker d.loader id (plugin_of id config) config in
    let dir = load_sink_dir m.linker d.loader id (plugin_of id config) config in
    elim (Option-cases l.component) [
      | inl e ↦
          rw (e, add_sink)
            (record {
              running = sym (append-nil (sinks_running d.sinks));
              only = record { config = refl; config_path = refl; probes = refl; plugin_dir = dir };
              wired = λ w. w;
            })
      | inr (a, e) ↦
          let s : LoadedSink = record { id = id; sink = a } in
          let pushed : Daemon = record d { loader = l.loader; sinks = d.sinks ++ s ∷ [] } in
          let (same_sinks, wired, only) = wire_sinks_lem pushed in
          rw (e, add_sink)
            (record {
              running = ap sinks_running same_sinks ∙ sinks_running-append d.sinks (s ∷ []);
              only =
                  SinksOnly-trans d pushed (wire_sinks pushed)
                    (record { config = refl; config_path = refl; probes = refl; plugin_dir = dir })
                    only;
              wired = λ w. wired;
            })
    ]

pub take_sink-erase :
    (id : Bytes) (ss : List LoadedSink)
    → (take_sink id ss ≡ none → erase id (sinks_running ss) ≡ sinks_running ss)
      × ((s : LoadedSink) (rest : List LoadedSink)
          → take_sink id ss ≡ some (s, rest)
          → sinks_running rest ≡ erase id (sinks_running ss))
unfolding take_sink erase
take_sink-erase id [] = (λ h. refl, λ s rest h. cc)
take_sink-erase id (t ∷ ss) =
    let (missing, found) = take_sink-erase id ss in
    elim (Bool-cases (same t.id id)) [
      | inl e ↦ (
        λ h. absurd (ground (arith, e, h)),
        λ s rest h.
            let at = some-injective (t, ss) (s, rest) (rw (e, take_sink) at h) in
            rw (e, erase) (ap (λ x. sinks_running x.1) (sym at)),
      )
      | inr e ↦ elim (Option-cases (take_sink id ss)) [
        | inl f ↦ (
          λ h. rw (e, erase) (ap (λ r. (t.id, t.sink) ∷ r) (missing f)),
          λ s rest h. absurd (ground (arith, e, f, h)),
        )
        | inr ((u, us), f) ↦ (
          λ h. absurd (ground (arith, e, f, h)),
          λ s rest h.
              let at = some-injective (u, t ∷ us) (s, rest) (rw (e, f, take_sink) at h) in
              ap (λ x. sinks_running x.1) (sym at)
              ∙ rw (e, erase) (ap (λ r. (t.id, t.sink) ∷ r) (found u us f)),
        )
      ]
    ]

pub remove_sink_lem :
    (d : Daemon) (id : Bytes) → SinkStep d (remove_sink d id).0 (erase id (sinks_running d.sinks))
unfolding remove_sink unload_sink
remove_sink_lem d id =
    let (missing, found) = take_sink-erase id d.sinks in
    elim (Option-cases (take_sink id d.sinks)) [
      | inl e ↦
          rw (e, remove_sink)
            (record { running = sym (missing e); only = SinksOnly-refl d; wired = λ w. w })
      | inr ((s, rest), e) ↦
          let left : Daemon = record d { sinks = rest } in
          let (same_sinks, wired, only) = wire_sinks_lem left in
          rw (e, remove_sink)
            (record {
              running = ap sinks_running same_sinks ∙ found s rest e;
              only = record {
                config = only.config;
                config_path = only.config_path;
                probes = only.probes;
                plugin_dir = refl;
              };
              wired = λ w. wired;
            })
    ]
