-- ===== src/Config/File.antt =====
-- src/core/config/config_file.cpp: the configuration that a JSON file holds. Opening and parsing the file
-- is a parameter: what nlohmann::json makes of it, an object's members in the order in which it walks
-- them. Errors are values; their texts are not modelled.
pub mod Enabled
use slurm_tracer.Common.{
  ◌≡◌, ◌⊎◌, inl, inr, refl, ℕ, suc, ◌-◌, ◌^◌, Bool, true, false, List, [], ◌∷◌, ◌++◌, Option, none,
  some, ltb, if◌then◌else◌,
}
use slurm_tracer.Text.{Bytes, codes, same}
use slurm_tracer.Text.Decimal.{to_string}
use slurm_tracer.Words.{u64}
use slurm_tracer.Dict.{Dict, text_key, lookup, insert, retain}
use slurm_tracer.Config.{
  ComponentConfig, Config, default_config, set, get_bool, get_uint, get_duration,
}

-- A number that is no integer is named by a number of the model; an array by all that it is printed as.
mutual
  pub data Json : Type 0 where
    null : Json
    bool : Bool → Json
    unsigned : ℕ → Json
    -- - (n + 1)
    negative : ℕ → Json
    float : ℕ → Json
    str : Bytes → Json
    arr : Bytes → Json
    obj : Members → Json

  pub data Members : Type 0 where
    end : Members
    member : Bytes → Json → Members → Members

abbrev pub members : Members → List (Bytes × Json)
members end = []
members (member k v ms) = (k, v) ∷ members ms

-- nlohmann's `dump`, and std::to_string of a double.
pub record Printer : Type 0 where
  pub dump : Json → Bytes
  pub float_text : ℕ → Bytes

pub data Error : Type 0 where
  cannot_open not_json top_level_not_object : Error
  not_an_object unknown_key unknown_section : Bytes → Error
  -- nlohmann's exception on a value of another type than the one asked for.
  wrong_type : Error

pub data Loaded {ℓ} (A : Type ℓ) : Type ℓ where
  loaded : A → Loaded A
  refused : Error → Loaded A

pub Loaded-cases {ℓ} :
    {A : Type ℓ}
    → (o : Option (Loaded A))
    → (o ≡ none) ⊎ (((e : Error) × (o ≡ some (refused e))) ⊎ ((a : A) × (o ≡ some (loaded a))))
Loaded-cases none = inl refl
Loaded-cases (some (refused e)) = inr (inl (e, refl))
Loaded-cases (some (loaded a)) = inr (inr (a, refl))

infixl 5 ◌>>=◌
abbrev pub ◌>>=◌ {ℓ κ} : {A : Type ℓ} {B : Type κ} → Loaded A → (A → Loaded B) → Loaded B
loaded a >>= f = f a
refused e >>= f = refused e

-- std::to_string of an int64_t that was got from an unsigned number, which wraps around.
abbrev pub int64_text : ℕ → Bytes
int64_text n = if ltb n (2 ^ 63) then to_string n else codes "-" ++ to_string (u64 - n)

unfoldable pub stringify : Printer → Json → Bytes
stringify p (str s) = s
stringify p (bool true) = codes "true"
stringify p (bool false) = codes "false"
stringify p (unsigned n) = int64_text n
stringify p (negative n) = codes "-" ++ to_string (suc n)
stringify p (float x) = p.float_text x
stringify p v = p.dump v

abbrev pub one_shot : Bytes → ComponentConfig
one_shot value = set [] (codes "v") value

-- `v.get<std::string>()`.
abbrev pub get_string : Json → Loaded Bytes
get_string (str s) = loaded s
get_string v = refused wrong_type

unfoldable pub drop_disabled : Dict Bytes ComponentConfig → Dict Bytes ComponentConfig
drop_disabled = retain (λ _ c. get_bool c (codes "enabled") true)

-- The inner loop of `load_components`.
unfoldable pub set_all : Printer → ComponentConfig → List (Bytes × Json) → ComponentConfig
set_all p c [] = c
set_all p c ((key, v) ∷ rest) = set_all p (set c key (stringify p v)) rest

-- `components[name]`.
abbrev pub component_at : Dict Bytes ComponentConfig → Bytes → ComponentConfig
component_at m name = elim (lookup name m) [ none ↦ [] | some c ↦ c ]

unfoldable pub load_component :
    Printer → Dict Bytes ComponentConfig → Bytes → Json → Loaded (Dict Bytes ComponentConfig)
unfolding set_all
load_component p m name (obj ms) =
    loaded (insert name (set_all p (component_at m name) (members ms)) m)
load_component p m name v = refused (not_an_object name)

unfoldable pub load_components :
    Printer → Dict Bytes ComponentConfig → List (Bytes × Json) → Loaded (Dict Bytes ComponentConfig)
unfolding load_component
load_components p m [] = loaded m
load_components p m ((name, v) ∷ rest) = do
  m' ← load_component p m name v
  load_components p m' rest

-- The handler of "node".
unfoldable pub node_key : Printer → Config → Bytes → Json → Loaded Config
node_key p c key v =
    if same key (codes "cluster")
    then (do s ← get_string v; loaded (record c { cluster = s }))
    else if same key (codes "node")
    then (do s ← get_string v; loaded (record c { node = s }))
    else if same key (codes "plugin_dir")
    then (do s ← get_string v; loaded (record c { plugin_dir = s }))
    else if same key (codes "batch_size")
    then loaded
        (record c { batch_size = get_uint (one_shot (stringify p v)) (codes "v") c.batch_size })
    else if same key (codes "flush_interval")
    then loaded (record c {
      flush_interval = get_duration (one_shot (stringify p v)) (codes "v") c.flush_interval;
    })
    else if same key (codes "verbose")
    then loaded (record c { verbose = get_bool (one_shot (stringify p v)) (codes "v") c.verbose })
    else refused (unknown_key key)

-- The handler of "slurm".
unfoldable pub slurm_key : Config → Bytes → Json → Loaded Config
slurm_key c key v =
    if same key (codes "cgroup_root")
    then (do s ← get_string v; loaded (record c { cgroup_root = s }))
    else refused (unknown_key key)

-- The loop of `load_object`.
unfoldable pub load_members :
    (Config → Bytes → Json → Loaded Config) → Config → List (Bytes × Json) → Loaded Config
load_members handler c [] = loaded c
load_members handler c ((key, v) ∷ rest) = do c' ← handler c key v; load_members handler c' rest

unfoldable pub load_object :
    (Config → Bytes → Json → Loaded Config) → Bytes → Config → Json → Loaded Config
unfolding load_members
load_object handler name c (obj ms) = load_members handler c (members ms)
load_object handler name c v = refused (not_an_object name)

unfoldable pub load_probes : Printer → Config → Json → Loaded Config
load_probes p c (obj ms) = do
  m ← load_components p c.probes (members ms)
  loaded (record c { probes = m })
load_probes p c v = refused (not_an_object (codes "probes"))

unfoldable pub load_sinks : Printer → Config → Json → Loaded Config
load_sinks p c (obj ms) = do
  m ← load_components p c.sinks (members ms)
  loaded (record c { sinks = m })
load_sinks p c v = refused (not_an_object (codes "sinks"))

unfoldable pub load_section : Printer → Config → Bytes → Json → Loaded Config
load_section p c section v =
    if same section (codes "node")
    then load_object (node_key p) (codes "node") c v
    else if same section (codes "slurm")
    then load_object slurm_key (codes "slurm") c v
    else if same section (codes "probes")
    then load_probes p c v
    else if same section (codes "sinks")
    then load_sinks p c v
    else refused (unknown_section section)

unfoldable pub load_sections : Printer → Config → List (Bytes × Json) → Loaded Config
load_sections p c [] = loaded c
load_sections p c ((section, v) ∷ rest) = do
  c' ← load_section p c section v
  load_sections p c' rest

-- The file: one that cannot be opened, one that is not JSON, one on which the parser throws anything but a
-- parse_error, as it does on a number out of the range of a double, or what was parsed.
pub data Source : Type 0 where
  missing malformed raises : Source
  parsed : Json → Source

-- From the parsed file on, where every exception of nlohmann's is caught.
unfoldable pub load_root : Printer → Json → Loaded Config
load_root p (obj ms) = do
  c ← load_sections p default_config (members ms)
  loaded (record c { probes = drop_disabled c.probes; sinks = drop_disabled c.sinks })
load_root p v = refused top_level_not_object

-- `none` is an exception that leaves it.
unfoldable pub load_config_file : Printer → Source → Option (Loaded Config)
unfolding load_root
load_config_file p missing = some (refused cannot_open)
load_config_file p malformed = some (refused not_json)
load_config_file p raises = none
load_config_file p (parsed v) = some (load_root p v)

pub load_config_file-eq-none :
    (p : Printer) (file : Source) → load_config_file p file ≡ none → file ≡ raises
unfolding load_config_file
load_config_file-eq-none p missing h = cc
load_config_file-eq-none p malformed h = cc
load_config_file-eq-none p raises h = refl
load_config_file-eq-none p (parsed v) h = cc
