-- ===== src/Daemon/Reload/Sinks.antt =====
-- The sinks through the loops of the start and of a reload.
use slurm_tracer.Common.{
  ℕ, ◌≡◌, refl, sym, ap, subst, ◌∙◌, inl, inr, List, [], ◌∷◌, ◌++◌, append-nil, Option, none, some,
  false, arith, if◌then◌else◌, Option-cases, Bool-cases,
}
use slurm_tracer.Text.{Bytes, codes, same}
use slurm_tracer.Text.Laws.{same_iff}
use slurm_tracer.Dict.{text_key, lookup}
use slurm_tracer.Config.{ComponentConfig, plugin_of}
use slurm_tracer.Config.Diff.{contains}
use slurm_tracer.PluginLoader.{Linker, PluginLoader, load_sink, open_plugin, plugin_path}
use slurm_tracer.Daemon.{Daemon, Machine, add_sink, remove_sink}
use slurm_tracer.Daemon.Start.{add_sinks}
use slurm_tracer.Daemon.Reload.{remove_sinks}
use slurm_tracer.Daemon.Reload.Chosen.{Components}
use slurm_tracer.Daemon.Running.{
  Running, IsUnique, sinks_running, lookup-erase, erase-IsUnique, otherwise, lookup-snoc,
  snoc-IsUnique,
}
use slurm_tracer.Daemon.Running.Sinks.{
  IsWired, SinksOnly, SinksOnly-refl, SinksOnly-trans, loaded_sink, under, add_sink_lem,
  remove_sink_lem,
}

-- What some steps do: which sink runs under an id is a function of the id.
pub record SinkSteps (d e : Daemon) (now : Bytes → Option ℕ) : Type 0 where
  pub running : (x : Bytes) → lookup x (sinks_running e.sinks) ≡ now x
  pub unique : IsUnique (sinks_running e.sinks)
  pub only : SinksOnly d e
  pub wired : IsWired d → IsWired e

pub remove_sinks_lem :
    (ids : List Bytes) (d : Daemon)
    → IsUnique (sinks_running d.sinks)
    → SinkSteps d
        (remove_sinks ids d).0
        (λ x. if contains x ids then none else lookup x (sinks_running d.sinks))
unfolding remove_sinks contains
remove_sinks_lem [] d u = record {
  running = λ x. refl;
  unique = u;
  only = SinksOnly-refl d;
  wired = λ w. w;
}
remove_sinks_lem (id ∷ ids) d u =
    let step = remove_sink_lem d id in
    let e = (remove_sink d id).0 in
    let left : IsUnique (sinks_running e.sinks) =
      subst IsUnique (sym step.running) (erase-IsUnique id (sinks_running d.sinks) u) in
    let more = remove_sinks_lem ids e left in
    let here : (x : Bytes)
        → lookup x (sinks_running e.sinks)
          ≡ (if same id x then none else lookup x (sinks_running d.sinks)) =
      λ x. ap (lookup x) step.running ∙ lookup-erase id x (sinks_running d.sinks) u in
    record {
      running = λ x. ground (arith, more.running x, here x);
      unique = more.unique;
      only = SinksOnly-trans d e (remove_sinks ids e).0 step.only more.only;
      wired = λ w. more.wired (step.wired w);
    }

abbrev pub component_only : Option (ℕ × ℕ) → Option ℕ
component_only none = none
component_only (some (component, handle)) = some component

given_sink :
    (ld : Linker) (l : PluginLoader) (id plugin : Bytes) (config : ComponentConfig)
    → (load_sink ld l id plugin config).component
      ≡ component_only
          (open_plugin ld
            (plugin_path l.plugin_dir (codes "sink") plugin)
            (codes "st_register_sink")
            plugin
            config).0
unfolding load_sink
given_sink ld l id plugin config =
    let path = plugin_path l.plugin_dir (codes "sink") plugin in
    elim (Option-cases (open_plugin ld path (codes "st_register_sink") plugin config).0) [
      | inl e ↦ rw (e, load_sink) refl
      | inr (c, e) ↦ rw (e, load_sink) refl
    ]

pub loaded_sink_dir :
    (m : Machine) (d e : Daemon) (id : Bytes) (config : ComponentConfig)
    → e.loader.plugin_dir ≡ d.loader.plugin_dir
    → loaded_sink m e id config ≡ loaded_sink m d id config
loaded_sink_dir m d e id config h =
    let plugin = plugin_of id config in
    given_sink m.linker e.loader id plugin config
    ∙ ap
        (λ dir.
          component_only
            (open_plugin m.linker (plugin_path dir (codes "sink") plugin) (codes "st_register_sink")
              plugin config).0)
        h
    ∙ sym (given_sink m.linker d.loader id plugin config)

-- What is loaded of the entries under an id.
abbrev pub sink_of : (Bytes → Machine) → Daemon → Bytes → Option ComponentConfig → Option ℕ
sink_of at d x none = none
sink_of at d x (some config) = loaded_sink (at x) d x config

lookup-under :
    (x id : Bytes) (o : Option ℕ) (m : Running)
    → lookup x (m ++ under id o) ≡ otherwise (lookup x m) (if same id x then o else none)
lookup-under x id none m = ap (lookup x) (append-nil m) ∙ ground arith
lookup-under x id (some a) m = lookup-snoc x id a m

pub under-IsUnique :
    (id : Bytes) (o : Option ℕ) (m : Running)
    → lookup id m ≡ none
    → IsUnique m
    → IsUnique (m ++ under id o)
under-IsUnique id none m h u = subst IsUnique (sym (append-nil m)) u
under-IsUnique id (some a) m h u = snoc-IsUnique id a m h u

-- None of the entries' ids runs yet.
abbrev pub Fresh : Components → Running → Type 0
Fresh [] m = Unit
Fresh ((id, config) ∷ rest) m = (lookup id m ≡ none) × Fresh rest m

Fresh-under :
    (id : Bytes) (o : Option ℕ) (rest : Components) (m : Running)
    → lookup id rest ≡ none
    → Fresh rest m
    → Fresh rest (m ++ under id o)
unfolding lookup
Fresh-under id o [] m h f = tt
Fresh-under id o ((j, c) ∷ rest) m h f =
    let apart : same id j ≡ false = ground (arith, h, same_iff id j, same_iff j id) in
    let away : lookup id rest ≡ none = ground (arith, h) in
    let found = lookup-under j id o m in
    (ground (arith, found, apart, f.0), Fresh-under id o rest m away f.1)

pub sink_of_dir :
    (at : Bytes → Machine) (d e : Daemon) (x : Bytes) (o : Option ComponentConfig)
    → e.loader.plugin_dir ≡ d.loader.plugin_dir
    → sink_of at e x o ≡ sink_of at d x o
sink_of_dir at d e x none h = refl
sink_of_dir at d e x (some config) h = loaded_sink_dir (at x) d e x config h

abbrev pub after_adding : (Bytes → Machine) → Daemon → Components → Bytes → Option ℕ
after_adding at d entries x =
    otherwise (lookup x (sinks_running d.sinks)) (sink_of at d x (lookup x entries))

pub otherwise-none : (o : Option ℕ) → otherwise o none ≡ o
otherwise-none none = refl
otherwise-none (some a) = refl

adding_cons :
    (at : Bytes → Machine) (d e : Daemon) (id : Bytes) (config : ComponentConfig)
    (rest : Components) (x : Bytes)
    → lookup id rest ≡ none
    → e.loader.plugin_dir ≡ d.loader.plugin_dir
    → lookup x (sinks_running e.sinks)
      ≡ otherwise
          (lookup x (sinks_running d.sinks))
          (if same id x then loaded_sink (at id) d id config else none)
    → after_adding at e rest x ≡ after_adding at d ((id, config) ∷ rest) x
unfolding lookup
adding_cons at d e id config rest x absent dir here =
    let m = sinks_running d.sinks in
    elim (Bool-cases (same id x)) [
      | inl s ↦
          let it = (same_iff id x).0 s in
          let gone : lookup x rest ≡ none = ap (λ k. lookup k rest) (sym it) ∙ absent in
          let now : lookup x (sinks_running e.sinks)
              ≡ otherwise (lookup x m) (loaded_sink (at x) d x config) =
            (rw s at here) ∙ ap (λ k. otherwise (lookup x m) (loaded_sink (at k) d k config)) it in
          rw (s, gone, lookup) (otherwise-none (lookup x (sinks_running e.sinks)) ∙ now)
      | inr s ↦
          let now : lookup x (sinks_running e.sinks) ≡ lookup x m =
            (rw s at here) ∙ otherwise-none (lookup x m) in
          rw (s, now, lookup)
            (ap (otherwise (lookup x m)) (sink_of_dir at d e x (lookup x rest) dir))
    ]

pub add_sinks_lem :
    (at : Bytes → Machine) (entries : Components) (d : Daemon)
    → IsUnique entries
    → Fresh entries (sinks_running d.sinks)
    → IsUnique (sinks_running d.sinks)
    → SinkSteps d (add_sinks at entries d).0 (after_adding at d entries)
unfolding add_sinks lookup
add_sinks_lem at [] d once f u = record {
  running = λ x. sym (otherwise-none (lookup x (sinks_running d.sinks)));
  unique = u;
  only = SinksOnly-refl d;
  wired = λ w. w;
}
add_sinks_lem at ((id, config) ∷ rest) d once f u =
    let o = loaded_sink (at id) d id config in
    let step = add_sink_lem (at id) d id config in
    let e = (add_sink (at id) d id config).0 in
    let m = sinks_running d.sinks in
    let unique : IsUnique (sinks_running e.sinks) =
      subst IsUnique (sym step.running) (under-IsUnique id o m f.0 u) in
    let fresh : Fresh rest (sinks_running e.sinks) =
      subst (Fresh rest) (sym step.running) (Fresh-under id o rest m once.0 f.1) in
    let more = add_sinks_lem at rest e once.1 fresh unique in
    let here : (x : Bytes)
        → lookup x (sinks_running e.sinks)
          ≡ otherwise (lookup x m) (if same id x then o else none) =
      λ x. ap (lookup x) step.running ∙ lookup-under x id o m in
    record {
      running = λ x.
          more.running x ∙ adding_cons at d e id config rest x once.0 step.only.plugin_dir (here x);
      unique = more.unique;
      only = SinksOnly-trans d e (add_sinks at rest e).0 step.only more.only;
      wired = λ w. more.wired (step.wired w);
    }
