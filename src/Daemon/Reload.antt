-- ===== src/Daemon/Reload.antt =====
-- `reload_config` of Daemon (src/core/daemon.cpp).
pub mod Chosen
pub mod Sinks
pub mod Reached
pub mod Probes
pub mod Running
pub mod Applied
pub mod Settled
pub mod Tests
use slurm_tracer.Common.{
  ℕ, Bool, true, false, not, List, [], ◌∷◌, ◌++◌, Option, none, some, if◌then◌else◌,
}
use slurm_tracer.Text.{Bytes, is_empty}
use slurm_tracer.Dict.{Dict, text_key, lookup}
use slurm_tracer.Config.{ComponentConfig, Config, ConfigDiff, diff_for_reload}
use slurm_tracer.Config.File.{Printer, Source, loaded, refused, load_config_file}
use slurm_tracer.Daemon.{Daemon, Machine, Call, add_sink, remove_sink, add_probe, remove_probe}

-- What the surroundings do during a reload: the file at a path, and for each id what they do while its sink
-- or probe is added, and while its probe is removed.
pub record Surroundings : Type 0 where
  pub printer : Printer
  pub files : Bytes → Source
  pub at_sink : Bytes → Machine
  pub at_removal : Bytes → Machine
  pub at_probe : Bytes → Machine

unfoldable pub remove_sinks : List Bytes → Daemon → Daemon × List Call
unfolding remove_sink
remove_sinks [] d = (d, [])
remove_sinks (id ∷ ids) d =
    let (e, calls) = remove_sink d id in
    let (last, more) = remove_sinks ids e in (last, calls ++ more)

unfoldable pub remove_probes : (Bytes → Machine) → List Bytes → Daemon → Daemon × List Call
unfolding remove_probe
remove_probes at [] d = (d, [])
remove_probes at (id ∷ ids) d =
    let (e, calls) = remove_probe (at id) d id in
    let (last, more) = remove_probes at ids e in (last, calls ++ more)

abbrev pub after : List Call → Option (Daemon × List Call) → Option (Daemon × List Call)
after calls none = none
after calls (some (d, more)) = some (d, calls ++ more)

-- The loops that add; `none` is the std::out_of_range of `at` on an id that the map has not.
unfoldable pub add_new_sinks :
    (Bytes → Machine)
    → Dict Bytes ComponentConfig
    → List Bytes
    → Daemon
    → Option (Daemon × List Call)
unfolding add_sink
add_new_sinks at next [] d = some (d, [])
add_new_sinks at next (id ∷ ids) d = elim (lookup id next) [
  | none ↦ none
  | some config ↦
      let (e, calls) = add_sink (at id) d id config in after calls (add_new_sinks at next ids e)
]

unfoldable pub add_new_probes :
    (Bytes → Machine)
    → Dict Bytes ComponentConfig
    → List Bytes
    → Daemon
    → Option (Daemon × List Call)
unfolding add_probe
add_new_probes at next [] d = some (d, [])
add_new_probes at next (id ∷ ids) d = elim (lookup id next) [
  | none ↦ none
  | some config ↦
      let (e, calls) = add_probe (at id) d id config in after calls (add_new_probes at next ids e)
]

-- `config_.sinks` and `config_.probes` become the new file's.
abbrev pub adopt : Config → Daemon → Daemon
adopt next d = record d { config = record c { probes = next.probes; sinks = next.sinks } }
  where
    open d use {config as c}

unfoldable pub apply_diff :
    Surroundings → Config → ConfigDiff → Daemon → Option (Daemon × List Call)
unfolding remove_sinks remove_probes add_new_sinks add_new_probes
apply_diff s next diff d =
    let (a, calls) = remove_sinks diff.removed_sinks d in
    elim (add_new_sinks s.at_sink next.sinks diff.added_sinks a) [
      | none ↦ none
      | some (b, more) ↦
          let (c, later) = remove_probes s.at_removal diff.removed_probes b in
          elim (add_new_probes s.at_probe next.probes diff.added_probes c) [
            | none ↦ none
            | some (last, rest) ↦ some (adopt next last, calls ++ (more ++ (later ++ rest)))
          ]
    ]

-- `none` is an exception that leaves it.
unfoldable pub reload_config : Surroundings → Daemon → Option (Daemon × List Call)
unfolding apply_diff
reload_config s d =
    if is_empty d.config_path
    then some (d, [])
    else (elim (load_config_file s.printer (s.files d.config_path)) [
      | none ↦ none
      | some (refused error) ↦ some (d, [])
      | some (loaded next) ↦ elim (diff_for_reload d.config next) [
        | none ↦ some (d, [])
        | some diff ↦ apply_diff s next diff d
      ]
    ])
