-- ===== src/Daemon/Reload/Reached.antt =====
-- Which sinks run after a reload.
use slurm_tracer.Common.{
  ℕ, ◌≡◌, refl, sym, ap, ◌∙◌, inl, inr, [], ◌∷◌, Option, none, some, true, false, arith,
  if◌then◌else◌, Option-cases, Bool-cases,
}
use slurm_tracer.Text.{Bytes, same}
use slurm_tracer.Text.Laws.{same_iff}
use slurm_tracer.Dict.{text_key, lookup, retain}
use slurm_tracer.Dict.Retain.{IsSorted, keep_if, lookup-retain, retain-IsSorted}
use slurm_tracer.Config.{ComponentConfig, differs, diff_components, plugin_of}
use slurm_tracer.Config.Diff.{contains, contains-diff}
use slurm_tracer.Daemon.{Daemon, Machine, add_sink}
use slurm_tracer.Daemon.Start.{add_sinks}
use slurm_tracer.Daemon.Reload.{after, remove_sinks, add_new_sinks}
use slurm_tracer.Daemon.Reload.Chosen.{Components, chosen, Agrees}
use slurm_tracer.Daemon.Running.{Running, IsUnique, sinks_running, otherwise, IsSorted-IsUnique}
use slurm_tracer.Daemon.Running.Sinks.{SinksOnly-trans, loaded_sink}
use slurm_tracer.Daemon.Reload.Sinks.{
  SinkSteps, remove_sinks_lem, Fresh, sink_of, sink_of_dir, otherwise-none, add_sinks_lem,
}

pub add_new_sinks_lem :
    (at : Bytes → Machine) (full other m : Components) (d : Daemon)
    → Agrees m full
    → add_new_sinks at full (diff_components m other) d ≡ some (add_sinks at (chosen m other) d)
unfolding add_new_sinks add_sinks chosen retain diff_components
add_new_sinks_lem at full other [] d h = refl
add_new_sinks_lem at full other ((id, config) ∷ m) d h =
    elim (Bool-cases (differs other id config)) [
      | inl e ↦
          let (next, calls) = add_sink (at id) d id config in
          rw (e, h.0, diff_components, retain, add_new_sinks, add_sinks)
            (ap (after calls) (add_new_sinks_lem at full other m next h.1))
      | inr e ↦ rw (e, diff_components, retain) (add_new_sinks_lem at full other m d h.1)
    ]

-- Nothing runs but what the configuration names.
abbrev pub Configured : Components → Running → Type 0
Configured current m = (x : Bytes) → lookup x current ≡ none → lookup x m ≡ none

-- What is to run under an id: what the new configuration names, of which an entry that the current one has
-- not, or has with another plugin, is loaded, and any other one is the instance that ran.
abbrev pub expected :
    Components
    → Running
    → (Bytes → ComponentConfig → Option ℕ)
    → Bytes
    → Option ComponentConfig
    → Option ℕ
expected current m fresh x none = none
expected current m fresh x (some config) =
    if differs current x config then fresh x config else lookup x m

-- What the removal leaves under an id.
abbrev pub spared : Components → Components → Running → Bytes → Option ℕ
spared current next m x = if contains x (diff_components current next) then none else lookup x m

differs_swap :
    (current next : Components) (x : Bytes) (c : ComponentConfig)
    → lookup x next ≡ some c
    → (lookup x current ≡ none → differs current x c ≡ true)
      × ((b : ComponentConfig) → lookup x current ≡ some b → differs next x b ≡ differs current x c)
unfolding differs
differs_swap current next x c h = (
  λ e. ground arith,
  λ b e.
      ground
        (arith, same_iff (plugin_of x b) (plugin_of x c), same_iff (plugin_of x c) (plugin_of x b)),
)

-- What is spared, with the entries that are added, is what is to run.
pub spared_reaches :
    (current next : Components) (m : Running) (x : Bytes)
    → IsSorted current
    → IsSorted next
    → Configured current m
    → ((c : ComponentConfig)
        → lookup x next ≡ some c
        → differs current x c ≡ true
        → spared current next m x ≡ none)
      × ((c : ComponentConfig)
          → lookup x next ≡ some c
          → differs current x c ≡ false
          → spared current next m x ≡ lookup x m)
      × (lookup x next ≡ none → spared current next m x ≡ none)
unfolding differs
spared_reaches current next m x s t configured =
    let old = contains-diff current next x s in
    elim (Option-cases (lookup x current)) [
      | inl e ↦
          let idle = configured x e in
          (
            λ c h k. ground (arith, old, e, idle),
            λ c h k. ground (arith, old, e, idle),
            λ h. ground (arith, old, e, idle),
          )
      | inr (b, e) ↦ (
        λ c h k. ground (arith, old, e, (differs_swap current next x c h).1 b e, k),
        λ c h k. ground (arith, old, e, (differs_swap current next x c h).1 b e, k),
        λ h. ground (arith, old, e, h),
      )
    ]

pub Fresh-intro :
    (entries : Components) (m : Running)
    → IsUnique entries
    → ((x : Bytes) (c : ComponentConfig) → lookup x entries ≡ some c → lookup x m ≡ none)
    → Fresh entries m
unfolding lookup
Fresh-intro [] m u h = tt
Fresh-intro ((id, config) ∷ rest) m u h =
    let itself = (same_iff id id).1 refl in
    let later : (x : Bytes) (c : ComponentConfig) → lookup x rest ≡ some c → lookup x m ≡ none =
      λ x c e. elim (Bool-cases (same id x)) [
        | inl s ↦
            let gone = ap (λ k. lookup k rest) (sym ((same_iff id x).0 s)) ∙ u.0 in
            absurd (ground (arith, e, gone))
        | inr s ↦ h x c (rw (s, lookup) e)
      ] in
    (h id config (rw (itself, lookup) refl), Fresh-intro rest m u.1 later)

pub chosen-lookup :
    (current next : Components) (x : Bytes)
    → IsSorted next
    → lookup x (chosen next current) ≡ keep_if (differs current x) (lookup x next)
unfolding chosen
chosen-lookup current next x t = lookup-retain (differs current) x next t

pub chosen-IsSorted : (current next : Components) → IsSorted next → IsSorted (chosen next current)
unfolding chosen
chosen-IsSorted current next t = retain-IsSorted (differs current) next t

keep_if-some :
    (current : Components) (x : Bytes) (o : Option ComponentConfig) (c : ComponentConfig)
    → keep_if (differs current x) o ≡ some c
    → (o ≡ some c) × (differs current x c ≡ true)
keep_if-some current x none c h = cc
keep_if-some current x (some b) c h = elim (Bool-cases (differs current x b)) [
  | inl e ↦ ground (arith, e, h)
  | inr e ↦ absurd (ground (arith, e, h))
]

-- An entry that is added is not spared.
pub chosen-spared :
    (current next : Components) (m : Running) (x : Bytes) (c : ComponentConfig)
    → IsSorted current
    → IsSorted next
    → Configured current m
    → lookup x (chosen next current) ≡ some c
    → spared current next m x ≡ none
chosen-spared current next m x c s t configured e =
    let (there, differing) =
      keep_if-some current x (lookup x next) c (sym (chosen-lookup current next x t) ∙ e) in
    (spared_reaches current next m x s t configured).0 c there differing

pub chosen-Fresh :
    (current next : Components) (m n : Running)
    → IsSorted current
    → IsSorted next
    → Configured current m
    → ((x : Bytes) → spared current next m x ≡ none → lookup x n ≡ none)
    → Fresh (chosen next current) n
chosen-Fresh current next m n s t configured left =
    Fresh-intro (chosen next current) n
      (IsSorted-IsUnique (chosen next current) (chosen-IsSorted current next t))
      (λ x c e. left x (chosen-spared current next m x c s t configured e))

-- What is loaded of the entries that are added, from what is found of them.
abbrev pub picked : (Bytes → ComponentConfig → Option ℕ) → Bytes → Option ComponentConfig → Option ℕ
picked fresh x none = none
picked fresh x (some config) = fresh x config

pub expected_lem :
    (current next : Components) (m : Running) (fresh : Bytes → ComponentConfig → Option ℕ)
    (x : Bytes)
    → IsSorted current
    → IsSorted next
    → Configured current m
    → otherwise (spared current next m x) (picked fresh x (lookup x (chosen next current)))
      ≡ expected current m fresh x (lookup x next)
expected_lem current next m fresh x s t configured =
    let found = chosen-lookup current next x t in
    let (new, kept, gone) = spared_reaches current next m x s t configured in
    elim (Option-cases (lookup x next)) [
      | inl e ↦ rw (found, e, gone e) refl
      | inr (c, e) ↦ elim (Bool-cases (differs current x c)) [
        | inl f ↦ rw (found, e, f, new c e f) refl
        | inr f ↦ rw (found, e, f, kept c e f) (otherwise-none (lookup x m))
      ]
    ]

pub sink_of-picked :
    (at : Bytes → Machine) (d : Daemon) (x : Bytes) (o : Option ComponentConfig)
    → sink_of at d x o ≡ picked (λ y. loaded_sink (at y) d y) x o
sink_of-picked at d x none = refl
sink_of-picked at d x (some config) = refl

-- The sinks' part of a reload.
pub sinks_reached :
    (at : Bytes → Machine) (current next : Components) (d : Daemon)
    → IsSorted current
    → IsSorted next
    → IsUnique (sinks_running d.sinks)
    → Configured current (sinks_running d.sinks)
    → let left = (remove_sinks (diff_components current next) d).0 in
      SinkSteps d (add_sinks at (chosen next current) left).0 (λ x.
        expected current (sinks_running d.sinks) (λ y. loaded_sink (at y) d y) x (lookup x next))
sinks_reached at current next d s t u configured =
    let m = sinks_running d.sinks in
    let removal = remove_sinks_lem (diff_components current next) d u in
    let left = (remove_sinks (diff_components current next) d).0 in
    let fresh =
      chosen-Fresh current next m (sinks_running left.sinks) s t configured
        (λ x h. removal.running x ∙ h) in
    let once = IsSorted-IsUnique (chosen next current) (chosen-IsSorted current next t) in
    let adding = add_sinks_lem at (chosen next current) left once fresh removal.unique in
    record {
      running = λ x.
          let o = lookup x (chosen next current) in
          let added = sink_of_dir at d left x o removal.only.plugin_dir ∙ sink_of-picked at d x o in
          adding.running x
          ∙ ap (λ r. otherwise r (sink_of at left x o)) (removal.running x)
          ∙ ap (otherwise (spared current next m x)) added
          ∙ expected_lem current next m (λ y. loaded_sink (at y) d y) x s t configured;
      unique = adding.unique;
      only = SinksOnly-trans d left _ removal.only adding.only;
      wired = λ w. adding.wired (removal.wired w);
    }
