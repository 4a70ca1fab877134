-- ===== src/Config/Diff.antt =====
-- What a reload changes, and where that leads.
use slurm_tracer.Common.{
  ◌≡◌, inl, inr, refl, ◌∙◌, sym, ap, Bool, true, false, ◌&&◌, ◌||◌, List, [], ◌∷◌, Option, none,
  some, arith, if◌then◌else◌, Bool-cases, Option-cases, ◌↔◌, is_some,
}
use slurm_tracer.Text.{Bytes, same}
use slurm_tracer.Text.Laws.{same_iff}
use slurm_tracer.Dict.{Dict, text_key, lookup, insert, erase}
use slurm_tracer.Dict.Laws.{lookup-insert}
use slurm_tracer.Dict.Retain.{
  IsSorted, lookup-Above, lookup-erase_self, lookup-erase_ne, erase-IsSorted,
}
use slurm_tracer.Config.{
  ComponentConfig, Config, plugin_of, differs, diff_components, diff_for_reload, eqb,
}

unfoldable pub contains : Bytes → List Bytes → Bool
contains id [] = false
contains id (x ∷ xs) = same x id || contains id xs

abbrev pub differs_at : Dict Bytes ComponentConfig → Bytes → Option ComponentConfig → Bool
differs_at other id none = false
differs_at other id (some config) = differs other id config

pub contains-diff :
    (m other : Dict Bytes ComponentConfig) (id : Bytes)
    → IsSorted m
    → contains id (diff_components m other) ≡ differs_at other id (lookup id m)
unfolding contains diff_components lookup
contains-diff [] other id s = refl
contains-diff ((j, c) ∷ m) other id s =
    ground (arith, contains-diff m other id s.1, lookup-Above j m s.0, same_iff j id)

-- The instances that run after a reload, if every one that is added starts: the removed ids leave, then
-- the added ids come with their settings in the new configuration.
unfoldable pub erase_all : List Bytes → Dict Bytes ComponentConfig → Dict Bytes ComponentConfig
erase_all [] m = m
erase_all (id ∷ ids) m = erase_all ids (erase id m)

unfoldable pub add_one :
    Dict Bytes ComponentConfig → Bytes → Dict Bytes ComponentConfig → Dict Bytes ComponentConfig
add_one next id m = elim (lookup id next) [ none ↦ m | some config ↦ insert id config m ]

unfoldable pub add_all :
    Dict Bytes ComponentConfig
    → List Bytes
    → Dict Bytes ComponentConfig
    → Dict Bytes ComponentConfig
unfolding add_one
add_all next [] m = m
add_all next (id ∷ ids) m = add_all next ids (add_one next id m)

unfoldable pub moved :
    Dict Bytes ComponentConfig → Dict Bytes ComponentConfig → Dict Bytes ComponentConfig
unfolding erase_all add_all
moved current next =
    add_all next (diff_components next current) (erase_all (diff_components current next) current)

lookup-erase_all :
    (ids : List Bytes) (m : Dict Bytes ComponentConfig) (id : Bytes)
    → IsSorted m
    → lookup id (erase_all ids m) ≡ (if contains id ids then none else lookup id m)
unfolding erase_all contains
lookup-erase_all [] m id s = refl
lookup-erase_all (x ∷ xs) m id s =
    let ih = lookup-erase_all xs (erase x m) id (erase-IsSorted x m s) in
    elim (Bool-cases (same x id)) [
      | inl e ↦
          let at_one = (same_iff x id).0 e in
          let gone = ap (λ k. lookup id (erase k m)) at_one ∙ lookup-erase_self id m s in
          ground (arith, ih, gone)
      | inr e ↦ ground (arith, ih, lookup-erase_ne x id m e)
    ]

lookup-add_one :
    (next m : Dict Bytes ComponentConfig) (x id : Bytes)
    → lookup id (add_one next x m)
      ≡ (if same x id && is_some (lookup id next) then lookup id next else lookup id m)
unfolding add_one
lookup-add_one next m x id = elim (Option-cases (lookup x next)) [
  | inl e ↦ ground (arith, same_iff x id)
  | inr (c, e) ↦ ground (arith, same_iff x id, lookup-insert x id c m)
]

lookup-add_all :
    (next : Dict Bytes ComponentConfig) (ids : List Bytes) (m : Dict Bytes ComponentConfig)
    (id : Bytes)
    → lookup id (add_all next ids m)
      ≡ (if contains id ids && is_some (lookup id next) then lookup id next else lookup id m)
unfolding add_all contains
lookup-add_all next [] m id = refl
lookup-add_all next (x ∷ xs) m id =
    ground (arith, lookup-add_all next xs (add_one next x m) id, lookup-add_one next m x id)

abbrev pub plugin_at : Bytes → Option ComponentConfig → Option Bytes
plugin_at id none = none
plugin_at id (some config) = some (plugin_of id config)

-- Of two configurations in the order of their keys: what a reload adds and removes, if all that is
-- added starts, leads from the instances of the current one to exactly those of the next one. Each id
-- is there if and only if it is there in the next, and with its plugin.
pub moved_reaches :
    (current next : Dict Bytes ComponentConfig) (id : Bytes)
    → IsSorted current
    → IsSorted next
    → plugin_at id (lookup id (moved current next)) ≡ plugin_at id (lookup id next)
unfolding moved differs
moved_reaches current next id s t =
    let kept = erase_all (diff_components current next) current in
    let came = lookup-add_all next (diff_components next current) kept id in
    let left = lookup-erase_all (diff_components current next) current id s in
    let old = contains-diff current next id s in
    let new = contains-diff next current id t in
    elim (Option-cases (lookup id current)) [
      | inl e ↦ ground (arith, came, left, old, new)
      | inr (c, e) ↦ elim (Option-cases (lookup id next)) [
        | inl f ↦ ground (arith, came, left, old, new)
        | inr (d, f) ↦ ground (
          arith,
          came,
          left,
          old,
          new,
          same_iff (plugin_of id c) (plugin_of id d),
          same_iff (plugin_of id d) (plugin_of id c),
        )
      ]
    ]

-- Of two configurations in the order of their keys: an id that keeps its plugin is neither removed nor
-- added, whatever else of its settings changes.
pub diff_leaves :
    (current next : Dict Bytes ComponentConfig) (id : Bytes) (c d : ComponentConfig)
    → IsSorted current
    → IsSorted next
    → lookup id current ≡ some c
    → lookup id next ≡ some d
    → plugin_of id c ≡ plugin_of id d
    → (contains id (diff_components current next) ≡ false)
      × (contains id (diff_components next current) ≡ false)
unfolding differs
diff_leaves current next id c d s t h k e = (
  ground (arith, contains-diff current next id s, same_iff (plugin_of id c) (plugin_of id d)),
  ground (arith, contains-diff next current id t, same_iff (plugin_of id d) (plugin_of id c)),
)

eqb_iff : (a b : Bool) → (eqb a b ≡ true) ↔ (a ≡ b)
eqb_iff true b = (λ h. sym h, λ h. sym h)
eqb_iff false true = (λ h. cc, λ h. cc)
eqb_iff false false = (λ h. refl, λ h. refl)

-- A configuration can be applied live exactly when nothing but the probes and sinks differs.
pub diff_for_reload_iff :
    (current next : Config)
    → is_some (diff_for_reload current next) ≡ true ↔ (
        (next.cluster ≡ current.cluster)
        × (next.node ≡ current.node)
        × (next.cgroup_root ≡ current.cgroup_root)
        × (next.plugin_dir ≡ current.plugin_dir)
        × (next.batch_size ≡ current.batch_size)
        × (next.flush_interval ≡ current.flush_interval)
        × (next.verbose ≡ current.verbose))
unfolding diff_for_reload
diff_for_reload_iff current next = (
  λ h. ground (
    arith,
    same_iff next.cluster current.cluster,
    same_iff next.node current.node,
    same_iff next.cgroup_root current.cgroup_root,
    same_iff next.plugin_dir current.plugin_dir,
    eqb_iff next.verbose current.verbose,
  ),
  λ (a, b, c, d, e, f, g). ground (
    arith,
    same_iff next.cluster current.cluster,
    same_iff next.node current.node,
    same_iff next.cgroup_root current.cgroup_root,
    same_iff next.plugin_dir current.plugin_dir,
    eqb_iff next.verbose current.verbose,
  ),
)
