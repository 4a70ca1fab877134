-- ===== src/Config/File/Enabled.antt =====
-- What a file that is accepted turns on.
use mathlib.Core.Option.{some-injective}
use slurm_tracer.Common.{
  ◌≢◌, ◌⊎◌, Option-cases, ◌≡◌, refl, subst, ◌∙◌, true, List, [], ◌∷◌, some, arith, inl, inr,
  Bool-cases,
}
use slurm_tracer.Text.{Bytes, codes, same}
use slurm_tracer.Dict.{Dict, text_key, lookup}
use slurm_tracer.Dict.Retain.{IsSorted, insert-IsSorted, retain-IsSorted, lookup-retain}
use slurm_tracer.Config.{ComponentConfig, Config, default_config, get_bool}
use slurm_tracer.Config.File.{
  Json, null, bool, unsigned, negative, float, str, arr, obj, members, Printer, Error, Loaded,
  loaded, refused, ◌>>=◌, drop_disabled, load_component, load_components, node_key, slurm_key,
  load_members, load_object, load_probes, load_sinks, load_section, load_sections, Source, missing,
  malformed, raises, parsed, load_root, load_config_file, set_all, component_at,
}

-- The value of a chain that succeeds.
>>=-eq-loaded {ℓ κ} :
    {A : Type ℓ} {B : Type κ} {b : B} (first : Loaded A) (next : A → Loaded B)
    → first >>= next ≡ loaded b
    → (a : A) × (next a ≡ loaded b) × (first ≡ loaded a)
>>=-eq-loaded (refused why) next h = cc
>>=-eq-loaded (loaded a) next h = (a, h, refl)

refused-ne-loaded {ℓ} : {A : Type ℓ} (e : Error) (a : A) → refused e ≢ loaded a
refused-ne-loaded e a h = cc

loaded-injective {ℓ} : {A : Type ℓ} (a b : A) → loaded a ≡ loaded b → a ≡ b
loaded-injective a b h = cc

record Keeps (c c' : Config) : Type 0 where
  probes : c'.probes ≡ c.probes
  sinks : c'.sinks ≡ c.sinks

node_key-Keeps :
    (p : Printer) (c : Config) (key : Bytes) (v : Json) (c' : Config)
    → node_key p c key v ≡ loaded c'
    → Keeps c c'
unfolding node_key
node_key-Keeps p c key v c' h = ground arith

slurm_key-Keeps :
    (c : Config) (key : Bytes) (v : Json) (c' : Config) → slurm_key c key v ≡ loaded c' → Keeps c c'
unfolding slurm_key
slurm_key-Keeps c key v c' h = ground arith

module _ (handler : Config → Bytes → Json → Loaded Config)
    (keeps : (c : Config) (key : Bytes) (v : Json) (c' : Config)
      → handler c key v ≡ loaded c'
      → Keeps c c') where
  load_members-Keeps :
      (c : Config) (ms : List (Bytes × Json)) (c' : Config)
      → load_members handler c ms ≡ loaded c'
      → Keeps c c'
  unfolding load_members
  load_members-Keeps c [] c' h = ground arith
  load_members-Keeps c ((key, v) ∷ rest) c' h =
      let (d, f, e) = >>=-eq-loaded (handler c key v) _ h in
      let first = keeps c key v d e in
      let later = load_members-Keeps d rest c' f in
      record { probes = later.probes ∙ first.probes; sinks = later.sinks ∙ first.sinks }

  load_object-Keeps :
      (name : Bytes) (c : Config) (v : Json) (c' : Config)
      → load_object handler name c v ≡ loaded c'
      → Keeps c c'
  unfolding load_object
  load_object-Keeps name c (obj ms) c' h = load_members-Keeps c (members ms) c' h
  load_object-Keeps name c v c' h = cc

load_component-IsSorted :
    (p : Printer) (m : Dict Bytes ComponentConfig) (name : Bytes) (v : Json)
    (m' : Dict Bytes ComponentConfig)
    → load_component p m name v ≡ loaded m'
    → IsSorted m
    → IsSorted m'
unfolding load_component
load_component-IsSorted p m name (obj ms) m' h s =
    subst IsSorted (loaded-injective _ m' h)
      (insert-IsSorted name (set_all p (component_at m name) (members ms)) m s)
load_component-IsSorted p m name v m' h s = cc

load_components-IsSorted :
    (p : Printer) (m : Dict Bytes ComponentConfig) (ms : List (Bytes × Json))
    (m' : Dict Bytes ComponentConfig)
    → load_components p m ms ≡ loaded m'
    → IsSorted m
    → IsSorted m'
unfolding load_components
load_components-IsSorted p m [] m' h s = subst IsSorted (loaded-injective m m' h) s
load_components-IsSorted p m ((name, v) ∷ rest) m' h s =
    let (d, f, e) = >>=-eq-loaded (load_component p m name v) _ h in
    load_components-IsSorted p d rest m' f (load_component-IsSorted p m name v d e s)

abbrev HasSorted : Config → Type 0
HasSorted c = IsSorted c.probes × IsSorted c.sinks

load_probes-HasSorted :
    (p : Printer) (c : Config) (v : Json) (c' : Config)
    → load_probes p c v ≡ loaded c'
    → HasSorted c
    → HasSorted c'
unfolding load_probes
load_probes-HasSorted p c (obj ms) c' h s =
    let (m, f, e) = >>=-eq-loaded (load_components p c.probes (members ms)) _ h in
    subst HasSorted (loaded-injective _ c' f)
      (load_components-IsSorted p c.probes (members ms) m e s.0, s.1)
load_probes-HasSorted p c v c' h s = cc

load_sinks-HasSorted :
    (p : Printer) (c : Config) (v : Json) (c' : Config)
    → load_sinks p c v ≡ loaded c'
    → HasSorted c
    → HasSorted c'
unfolding load_sinks
load_sinks-HasSorted p c (obj ms) c' h s =
    let (m, f, e) = >>=-eq-loaded (load_components p c.sinks (members ms)) _ h in
    subst HasSorted (loaded-injective _ c' f)
      (s.0, load_components-IsSorted p c.sinks (members ms) m e s.1)
load_sinks-HasSorted p c v c' h s = cc

Keeps-HasSorted : {c c' : Config} → Keeps c c' → HasSorted c → HasSorted c'
Keeps-HasSorted k s = (rw k.probes s.0, rw k.sinks s.1)

load_section-HasSorted :
    (p : Printer) (c : Config) (section : Bytes) (v : Json) (c' : Config)
    → load_section p c section v ≡ loaded c'
    → HasSorted c
    → HasSorted c'
unfolding load_section
load_section-HasSorted p c section v c' h s = elim (Bool-cases (same section (codes "node"))) [
  | inl a ↦
      let at_node = rw (a, load_section) at h in
      Keeps-HasSorted
        (load_object-Keeps (node_key p) (node_key-Keeps p) (codes "node") c v c' at_node) s
  | inr a ↦ elim (Bool-cases (same section (codes "slurm"))) [
    | inl b ↦
        let at_slurm = rw (a, b, load_section) at h in
        Keeps-HasSorted
          (load_object-Keeps slurm_key slurm_key-Keeps (codes "slurm") c v c' at_slurm) s
    | inr b ↦ elim (Bool-cases (same section (codes "probes"))) [
      | inl d ↦ load_probes-HasSorted p c v c' (rw (a, b, d, load_section) at h) s
      | inr d ↦ elim (Bool-cases (same section (codes "sinks"))) [
        | inl e ↦ load_sinks-HasSorted p c v c' (rw (a, b, d, e, load_section) at h) s
        | inr e ↦ absurd (refused-ne-loaded _ c' (rw (a, b, d, e, load_section) at h))
      ]
    ]
  ]
]

load_sections-HasSorted :
    (p : Printer) (c : Config) (ms : List (Bytes × Json)) (c' : Config)
    → load_sections p c ms ≡ loaded c'
    → HasSorted c
    → HasSorted c'
unfolding load_sections
load_sections-HasSorted p c [] c' h s = subst HasSorted (loaded-injective c c' h) s
load_sections-HasSorted p c ((section, v) ∷ rest) c' h s =
    let (d, f, e) = >>=-eq-loaded (load_section p c section v) _ h in
    load_sections-HasSorted p d rest c' f (load_section-HasSorted p c section v d e s)

drop_disabled-IsSorted : (m : Dict Bytes ComponentConfig) → IsSorted m → IsSorted (drop_disabled m)
unfolding drop_disabled
drop_disabled-IsSorted m s = retain-IsSorted (λ _ c. get_bool c (codes "enabled") true) m s

kept_is_enabled :
    (m : Dict Bytes ComponentConfig) (id : Bytes) (config : ComponentConfig)
    → IsSorted m
    → lookup id (drop_disabled m) ≡ some config
    → get_bool config (codes "enabled") true ≡ true
unfolding drop_disabled
kept_is_enabled m id config s h =
    let kept = lookup-retain (λ _ c. get_bool c (codes "enabled") true) id m s in
    elim (Option-cases (lookup id m)) [ inl e ↦ cc | inr (old, e) ↦ ground (arith, kept, e, h) ]

load_root_enabled :
    (p : Printer) (v : Json) (c : Config)
    → load_root p v ≡ loaded c
    → IsSorted c.probes
      × IsSorted c.sinks
      × ((id : Bytes) (config : ComponentConfig)
          → (lookup id c.probes ≡ some config) ⊎ (lookup id c.sinks ≡ some config)
          → get_bool config (codes "enabled") true ≡ true)
unfolding load_root
load_root_enabled p (obj ms) c h =
    let (d, f, e) = >>=-eq-loaded (load_sections p default_config (members ms)) _ h in
    let s = load_sections-HasSorted p default_config (members ms) d e (tt, tt) in
    let same_config = loaded-injective _ c f in
    subst
      (λ x.
        IsSorted x.probes
        × IsSorted x.sinks
        × ((id : Bytes) (config : ComponentConfig)
            → (lookup id x.probes ≡ some config) ⊎ (lookup id x.sinks ≡ some config)
            → get_bool config (codes "enabled") true ≡ true))
      same_config
      (
        drop_disabled-IsSorted d.probes s.0,
        drop_disabled-IsSorted d.sinks s.1,
        λ id config either. elim either [
          | inl a ↦ kept_is_enabled d.probes id config s.0 a
          | inr a ↦ kept_is_enabled d.sinks id config s.1 a
        ],
      )
load_root_enabled p null c h = cc
load_root_enabled p (bool x) c h = cc
load_root_enabled p (unsigned x) c h = cc
load_root_enabled p (negative x) c h = cc
load_root_enabled p (float x) c h = cc
load_root_enabled p (str x) c h = cc
load_root_enabled p (arr x) c h = cc

-- A file that loads leaves no component that its `enabled` key turns off: what the daemon is asked to
-- start, a probe or a sink, is one whose settings say so or do not say. Both maps are in the order of
-- their keys, as the comparison at a reload needs them.
pub load_config_file_enabled :
    (p : Printer) (file : Source) (c : Config)
    → load_config_file p file ≡ some (loaded c)
    → IsSorted c.probes
      × IsSorted c.sinks
      × ((id : Bytes) (config : ComponentConfig)
          → (lookup id c.probes ≡ some config) ⊎ (lookup id c.sinks ≡ some config)
          → get_bool config (codes "enabled") true ≡ true)
unfolding load_config_file
load_config_file_enabled p (parsed v) c h = load_root_enabled p v c (some-injective _ (loaded c) h)
load_config_file_enabled p missing c h = cc
load_config_file_enabled p malformed c h = cc
load_config_file_enabled p raises c h = cc
