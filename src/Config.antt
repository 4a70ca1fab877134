-- ===== src/Config.antt =====
-- src/core/config/config.h and config.cpp: the settings of one component, the configuration as a whole,
-- and what a reload has to change.
pub mod Values
pub mod Diff
pub mod File
pub mod Tests
use slurm_tracer.Common.{
  ℕ, zero, suc, ◌*◌, Bool, true, false, not, ◌&&◌, ◌||◌, List, [], ◌∷◌, Option, none, some, ◌==◌,
  if◌then◌else◌, is_some, take, drop,
}
use slurm_tracer.Text.{Bytes, codes, same, is_empty, is_digit, all_digits, strtoul, lower}
use slurm_tracer.Dict.{Dict, text_key, lookup, insert}

abbrev pub ComponentConfig : Type 0
ComponentConfig = Dict Bytes Bytes

-- `set`, `has` and `get` of ComponentConfig.
unfoldable pub set : ComponentConfig → Bytes → Bytes → ComponentConfig
set c key value = insert key value c

unfoldable pub has : ComponentConfig → Bytes → Bool
has c key = is_some (lookup key c)

unfoldable pub get : ComponentConfig → Bytes → Bytes → Bytes
get c key fallback = elim (lookup key c) [ none ↦ fallback | some value ↦ value ]

abbrev pub one_of : Bytes → List Bytes → Bool
one_of v [] = false
one_of v (w ∷ ws) = same v w || one_of v ws

abbrev pub true_words : List Bytes
true_words = codes "true" ∷ codes "yes" ∷ codes "1" ∷ codes "on" ∷ []

abbrev pub false_words : List Bytes
false_words = codes "false" ∷ codes "no" ∷ codes "0" ∷ codes "off" ∷ []

unfoldable pub parse_bool : Bytes → Bool → Bool
parse_bool value fallback =
    let v = lower value in
    if one_of v true_words then true else if one_of v false_words then false else fallback

unfoldable pub get_bool : ComponentConfig → Bytes → Bool → Bool
unfolding parse_bool
get_bool c key fallback = elim (lookup key c) [
  | none ↦ fallback
  | some value ↦ parse_bool value fallback
]

unfoldable pub parse_uint : Bytes → ℕ → ℕ
parse_uint value fallback =
    if is_empty value
    then fallback
    else if not (all_digits value)
    then fallback
    else (elim (strtoul value) [ none ↦ fallback | some n ↦ n ])

unfoldable pub get_uint : ComponentConfig → Bytes → ℕ → ℕ
unfolding parse_uint
get_uint c key fallback = elim (lookup key c) [
  | none ↦ fallback
  | some value ↦ parse_uint value fallback
]

-- The loop over the leading digits: their number.
unfoldable pub count_digits : Bytes → ℕ
count_digits [] = 0
count_digits (c ∷ s) = if is_digit c then suc (count_digits s) else 0

-- Milliseconds in a unit. A duration is exact where it is below 2 ^ 63, the bound of std::chrono's
-- signed numbers; the overflow beyond it is not modelled.
abbrev pub unit_ms : Bytes → Option ℕ
unit_ms unit =
    if is_empty unit || same unit (codes "ms")
    then some 1
    else if same unit (codes "s")
    then some 1_000
    else if same unit (codes "m")
    then some 60_000
    else if same unit (codes "h")
    then some 3_600_000
    else none

unfoldable pub parse_duration_ms : Bytes → Option ℕ
unfolding count_digits
parse_duration_ms text =
    let i = count_digits text in
    if i == 0 then none else (elim (strtoul (take i text)) [
      | none ↦ none
      | some value ↦ elim (unit_ms (drop i text)) [ none ↦ none | some ms ↦ some (value * ms) ]
    ])

unfoldable pub get_duration : ComponentConfig → Bytes → ℕ → ℕ
unfolding parse_duration_ms
get_duration c key fallback = elim (lookup key c) [
  | none ↦ fallback
  | some value ↦ elim (parse_duration_ms value) [ none ↦ fallback | some ms ↦ ms ]
]

pub record Config : Type 0 where
  pub cluster : Bytes
  pub node : Bytes
  pub cgroup_root : Bytes
  pub plugin_dir : Bytes
  pub batch_size : ℕ
  -- Milliseconds.
  pub flush_interval : ℕ
  pub verbose : Bool
  pub probes : Dict Bytes ComponentConfig
  pub sinks : Dict Bytes ComponentConfig

abbrev pub default_config : Config
default_config = record {
  cluster = codes "local";
  node = [];
  cgroup_root = [];
  plugin_dir = [];
  batch_size = 64;
  flush_interval = 1_000;
  verbose = false;
  probes = [];
  sinks = [];
}

unfoldable pub plugin_of : Bytes → ComponentConfig → Bytes
unfolding get
plugin_of id config = get config (codes "plugin") id

pub record ConfigDiff : Type 0 where
  pub added_probes : List Bytes
  pub removed_probes : List Bytes
  pub added_sinks : List Bytes
  pub removed_sinks : List Bytes

-- The test of either loop of `diff_components`: the id is not in the other map, or names another plugin.
unfoldable pub differs : Dict Bytes ComponentConfig → Bytes → ComponentConfig → Bool
unfolding plugin_of
differs other id config = elim (lookup id other) [
  | none ↦ true
  | some config' ↦ not (same (plugin_of id config) (plugin_of id config'))
]

-- The ids of the first map that pass the test against the second: `removed` for the maps in the order
-- current, next; and `added` for next, current.
unfoldable pub diff_components :
    Dict Bytes ComponentConfig → Dict Bytes ComponentConfig → List Bytes
unfolding differs
diff_components [] other = []
diff_components ((id, config) ∷ rest) other =
    if differs other id config then id ∷ diff_components rest other else diff_components rest other

abbrev pub eqb : Bool → Bool → Bool
eqb true b = b
eqb false b = not b

-- What has no live path is the same in both.
unfoldable pub same_fixed : Config → Config → Bool
same_fixed current next =
    same next.cluster current.cluster
    && same next.node current.node
    && same next.cgroup_root current.cgroup_root
    && same next.plugin_dir current.plugin_dir
    && next.batch_size == current.batch_size
    && next.flush_interval == current.flush_interval
    && eqb next.verbose current.verbose

unfoldable pub diff_for_reload : Config → Config → Option ConfigDiff
unfolding diff_components same_fixed
diff_for_reload current next =
    if same_fixed current next
    then some (record {
      added_probes = diff_components next.probes current.probes;
      removed_probes = diff_components current.probes next.probes;
      added_sinks = diff_components next.sinks current.sinks;
      removed_sinks = diff_components current.sinks next.sinks;
    })
    else none
