-- ===== src/Config/Tests.antt =====
-- A configuration's values, two configurations to compare, and a file.
use slurm_tracer.Common.{◌≡◌, refl, inl, true, false, [], ◌∷◌, ◌++◌, some, is_some, arith}
use slurm_tracer.Text.{Bytes, codes, same, before, lower}
use slurm_tracer.Text.Decimal.{to_string}
use slurm_tracer.Dict.{Dict, text_key, lookup, insert, retain}
use slurm_tracer.Dict.Retain.{IsSorted}
use slurm_tracer.Config.{
  ComponentConfig, Config, default_config, get_bool, set, get_uint, parse_duration_ms,
  diff_components, diff_for_reload,
}
use slurm_tracer.Config.Values.{get_uint-set, parse_duration_ms-to_string}
use slurm_tracer.Config.Diff.{
  moved, plugin_at, contains, moved_reaches, diff_leaves, diff_for_reload_iff,
}
use slurm_tracer.Config.File.{
  Json, bool, obj, end, member, Printer, parsed, load_config_file, load_root, load_sections,
  load_section, load_probes, load_components, drop_disabled, stringify,
}
use slurm_tracer.Config.File.Enabled.{load_config_file_enabled}

get_uint-set_run : get_uint (set [] (codes "max") (to_string 64)) (codes "max") 1 ≡ 64
get_uint-set_run = get_uint-set [] (codes "max") 64 1 (omega arith)

parse_duration_ms_example : parse_duration_ms (to_string 3 ++ codes "m") ≡ some 180_000
unfolding same
parse_duration_ms_example = (parse_duration_ms-to_string 3 (omega arith)).3

abbrev plugin : Bytes → ComponentConfig
plugin name = (codes "plugin", name) ∷ []

-- `a` keeps its plugin, `b` leaves and `c` comes.
abbrev current : Dict Bytes ComponentConfig
current = (codes "a", plugin (codes "oom")) ∷ (codes "b", plugin (codes "oom")) ∷ []

abbrev next : Dict Bytes ComponentConfig
next = (codes "a", plugin (codes "oom")) ∷ (codes "c", plugin (codes "oom")) ∷ []

current-IsSorted : IsSorted current
unfolding before
current-IsSorted = ((refl, tt), (tt, tt))

next-IsSorted : IsSorted next
unfolding before
next-IsSorted = ((refl, tt), (tt, tt))

moved_reaches_run :
    plugin_at (codes "c") (lookup (codes "c") (moved current next))
    ≡ plugin_at (codes "c") (lookup (codes "c") next)
moved_reaches_run = moved_reaches current next (codes "c") current-IsSorted next-IsSorted

diff_leaves_run : contains (codes "a") (diff_components current next) ≡ false
unfolding lookup same
diff_leaves_run =
    (diff_leaves current next (codes "a") (plugin (codes "oom")) (plugin (codes "oom"))
      current-IsSorted next-IsSorted refl refl refl).0

diff_for_reload_run : is_some (diff_for_reload default_config default_config) ≡ true
diff_for_reload_run =
    (diff_for_reload_iff default_config default_config).1 (refl, refl, refl, refl, refl, refl, refl)

-- {"probes": {"oom": {"enabled": false}, "proc": {}}}
abbrev file : Json
file = obj (
    member (codes "probes")
      (obj (
        member (codes "oom") (obj (member (codes "enabled") (bool false) end))
          (member (codes "proc") (obj end) end)))
      end)

abbrev printer : Printer
printer = record { dump = λ v. []; float_text = λ x. [] }

abbrev proc_only : Config
proc_only = record default_config { probes = (codes "proc", []) ∷ [] }

load_config_file_enabled_example : get_bool [] (codes "enabled") true ≡ true
unfolding load_config_file load_root load_sections load_section load_probes drop_disabled same
    insert lookup before retain get_bool load_components set lower stringify
load_config_file_enabled_example =
    (load_config_file_enabled printer (parsed file) proc_only refl).2 (codes "proc") [] (inl refl)
