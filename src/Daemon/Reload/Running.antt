-- ===== src/Daemon/Reload/Running.antt =====
-- The probes through the loop that adds them, and which of them run after a reload.
use slurm_tracer.Common.{
  ℕ, ◌≡◌, refl, sym, ap, subst, ◌∙◌, inl, inr, [], ◌∷◌, Option, none, some, true, false, arith,
  if◌then◌else◌, Option-cases, Bool-cases,
}
use slurm_tracer.Text.{Bytes, same}
use slurm_tracer.Text.Laws.{same_iff}
use slurm_tracer.Dict.{text_key, lookup}
use slurm_tracer.Dict.Retain.{IsSorted}
use slurm_tracer.Config.{ComponentConfig, diff_components}
use slurm_tracer.Config.Diff.{contains}
use slurm_tracer.Daemon.{Daemon, Machine, add_probe}
use slurm_tracer.Daemon.Start.{add_probes}
use slurm_tracer.Daemon.Reload.{remove_probes}
use slurm_tracer.Daemon.Reload.Chosen.{Components, chosen}
use slurm_tracer.Daemon.Running.{
  Running, IsUnique, probes_running, otherwise, lookup-snoc, snoc-IsUnique, IsSorted-IsUnique,
}
use slurm_tracer.Daemon.Running.Probes.{
  ProbesOnly, ProbesOnly-refl, ProbesOnly-trans, Within, Within-none,
}
use slurm_tracer.Daemon.Running.Added.{loaded_probe, add_probe_lem}
use slurm_tracer.Daemon.Reload.Sinks.{Fresh, otherwise-none}
use slurm_tracer.Daemon.Reload.Reached.{
  Configured, expected, spared, chosen-spared, chosen-Fresh, chosen-IsSorted, picked, expected_lem,
}
use slurm_tracer.Daemon.Reload.Probes.{
  ProbeSteps, probe_of, after_adding, remove_probes_lem, loaded_probe_dir,
}

abbrev if_same : Bytes → Bytes → Option ℕ → Option ℕ
if_same id x o = if same id x then o else none

first_of : (o p : Option ℕ) (a : ℕ) → o ≡ some a → otherwise o p ≡ some a
first_of o p a h = rw h refl

added :
    (m : Machine) (d : Daemon) (id : Bytes) (config : ComponentConfig)
    → lookup id (probes_running d.probes) ≡ none
    → IsUnique (probes_running d.probes)
    → ProbeSteps d (add_probe m d id config).0 (λ x.
      otherwise (lookup x (probes_running d.probes)) (if_same id x (loaded_probe m d id config)))
added m d id config absent u =
    let step = add_probe_lem m d id config in
    let e = (add_probe m d id config).0 in
    let old = probes_running d.probes in
    elim step.running [
      | inl h ↦ record {
        within = λ x a l. first_of (lookup x old) _ a (sym (ap (lookup x) h) ∙ l);
        kept = λ x a l. ap (lookup x) h ∙ l;
        unique = subst IsUnique (sym h) u;
        only = step.only;
      }
      | inr (c, loads, h) ↦ record {
        within = λ x a l.
            ap (λ o. otherwise (lookup x old) (if_same id x o)) loads
            ∙ sym (lookup-snoc x id c old)
            ∙ sym (ap (lookup x) h)
            ∙ l;
        kept = λ x a l. ap (lookup x) h ∙ lookup-snoc x id c old ∙ first_of (lookup x old) _ a l;
        unique = subst IsUnique (sym h) (snoc-IsUnique id c old absent u);
        only = step.only;
      }
    ]

Fresh-added :
    (m n : Running) (id : Bytes) (o : Option ℕ) (rest : Components)
    → ((x : Bytes) (a : ℕ) → lookup x n ≡ some a → otherwise (lookup x m) (if_same id x o) ≡ some a)
    → lookup id rest ≡ none
    → Fresh rest m
    → Fresh rest n
unfolding lookup
Fresh-added m n id o [] h k f = tt
Fresh-added m n id o ((j, c) ∷ rest) h k f =
    let apart : same id j ≡ false = ground (arith, k, same_iff id j, same_iff j id) in
    let away : lookup id rest ≡ none = ground (arith, k) in
    (
      elim (Option-cases (lookup j n)) [
        | inl e ↦ e
        | inr (a, e) ↦ absurd (ground (arith, h j a e, apart, f.0))
      ],
      Fresh-added m n id o rest h away f.1,
    )

pub probe_of_dir :
    (at : Bytes → Machine) (d e : Daemon) (x : Bytes) (o : Option ComponentConfig)
    → e.loader.plugin_dir ≡ d.loader.plugin_dir
    → probe_of at e x o ≡ probe_of at d x o
probe_of_dir at d e x none h = refl
probe_of_dir at d e x (some config) h = loaded_probe_dir (at x) d e x config h

-- What a later step adds to what one step added.
adding_cons :
    (at : Bytes → Machine) (d e : Daemon) (id : Bytes) (config : ComponentConfig)
    (rest : Components) (x : Bytes) (a : ℕ)
    → lookup id rest ≡ none
    → ProbeSteps d e (λ x.
      otherwise
        (lookup x (probes_running d.probes))
        (if_same id x (loaded_probe (at id) d id config)))
    → after_adding at e rest x ≡ some a
    → after_adding at d ((id, config) ∷ rest) x ≡ some a
unfolding lookup
adding_cons at d e id config rest x a absent step h =
    let m = probes_running d.probes in
    let n = probes_running e.probes in
    elim (Bool-cases (same id x)) [
      | inl s ↦
          let it = (same_iff id x).0 s in
          let gone : lookup x rest ≡ none = ap (λ k. lookup k rest) (sym it) ∙ absent in
          let runs : lookup x n ≡ some a = sym (otherwise-none (lookup x n)) ∙ (rw gone at h) in
          let here = step.within x a runs in
          let now : otherwise (lookup x m) (loaded_probe (at id) d id config) ≡ some a =
            rw s at here in
          rw (s, lookup)
            (ap (λ k. otherwise (lookup x m) (loaded_probe (at k) d k config)) (sym it) ∙ now)
      | inr s ↦ elim (Option-cases (lookup x n)) [
        | inl e' ↦
            let idle : lookup x m ≡ none = Within-none m n x step.kept e' in
            let loads : probe_of at e x (lookup x rest) ≡ some a = rw e' at h in
            rw (s, idle, lookup)
              (sym (probe_of_dir at d e x (lookup x rest) step.only.plugin_dir) ∙ loads)
        | inr (b, e') ↦
            let it : some b ≡ some a = rw e' at h in
            let here = step.within x b e' in
            let ran : otherwise (lookup x m) none ≡ some b = rw s at here in
            rw (s, lookup)
              (first_of (lookup x m) _ a (sym (otherwise-none (lookup x m)) ∙ ran ∙ it))
      ]
    ]

pub add_probes_lem :
    (at : Bytes → Machine) (entries : Components) (d : Daemon)
    → IsUnique entries
    → Fresh entries (probes_running d.probes)
    → IsUnique (probes_running d.probes)
    → ProbeSteps d (add_probes at entries d).0 (after_adding at d entries)
unfolding add_probes lookup
add_probes_lem at [] d once f u = record {
  within = λ x a l. first_of (lookup x (probes_running d.probes)) none a l;
  kept = λ x a l. l;
  unique = u;
  only = ProbesOnly-refl d;
}
add_probes_lem at ((id, config) ∷ rest) d once f u =
    let m = probes_running d.probes in
    let e = (add_probe (at id) d id config).0 in
    let step = added (at id) d id config f.0 u in
    let fresh =
      Fresh-added m (probes_running e.probes) id (loaded_probe (at id) d id config) rest step.within
        once.0 f.1 in
    let more = add_probes_lem at rest e once.1 fresh step.unique in
    record {
      within = λ x a l. adding_cons at d e id config rest x a once.0 step (more.within x a l);
      kept = λ x a l. more.kept x a (step.kept x a l);
      unique = more.unique;
      only = ProbesOnly-trans d e (add_probes at rest e).0 step.only more.only;
    }

-- What is left of a map is at most what is to be spared of it.
Fewer-spared :
    (current next : Components) (m n : Running) (x : Bytes)
    → Within n m
    → (contains x (diff_components current next) ≡ true → lookup x n ≡ none)
    → (a : ℕ) → lookup x n ≡ some a
    → spared current next m x ≡ some a
Fewer-spared current next m n x within gone a h =
    elim (Bool-cases (contains x (diff_components current next))) [
      | inl e ↦ absurd (ground (arith, gone e, h))
      | inr e ↦ rw e (within x a h)
    ]

spared_or_picked :
    (current next : Components) (m n : Running) (fresh : Bytes → ComponentConfig → Option ℕ)
    (x : Bytes) (a : ℕ)
    → ((b : ℕ) → lookup x n ≡ some b → spared current next m x ≡ some b)
    → ((c : ComponentConfig)
        → lookup x (chosen next current) ≡ some c
        → spared current next m x ≡ none)
    → otherwise (lookup x n) (picked fresh x (lookup x (chosen next current))) ≡ some a
    → otherwise (spared current next m x) (picked fresh x (lookup x (chosen next current))) ≡ some a
spared_or_picked current next m n fresh x a kept away h = elim (Option-cases (lookup x n)) [
  | inr (b, e) ↦
      let it : some b ≡ some a = rw e at h in first_of (spared current next m x) _ a (kept b e ∙ it)
  | inl e ↦
      let loads : picked fresh x (lookup x (chosen next current)) ≡ some a = rw e at h in
      elim (Option-cases (lookup x (chosen next current))) [
        | inl f ↦ absurd (ground (arith, rw f at loads))
        | inr (c, f) ↦ rw (away c f) loads
      ]
]

-- The probes' part of a reload.
pub probes_reached :
    (at_removal at : Bytes → Machine) (current next : Components) (d : Daemon)
    → IsSorted current
    → IsSorted next
    → IsUnique (probes_running d.probes)
    → Configured current (probes_running d.probes)
    → let left = (remove_probes at_removal (diff_components current next) d).0 in
      let last = (add_probes at (chosen next current) left).0 in
      ((x : Bytes) (a : ℕ)
        → lookup x (probes_running last.probes) ≡ some a
        → expected current
            (probes_running d.probes)
            (λ y. loaded_probe (at y) d y)
            x
            (lookup x next)
          ≡ some a)
      × IsUnique (probes_running last.probes)
      × ProbesOnly d last
probes_reached at_removal at current next d s t u configured =
    let m = probes_running d.probes in
    let (removal, gone) = remove_probes_lem at_removal (diff_components current next) d u in
    let left = (remove_probes at_removal (diff_components current next) d).0 in
    let n = probes_running left.probes in
    let kept = λ (x : Bytes). Fewer-spared current next m n x removal.within (gone x) in
    let idle : (x : Bytes) → spared current next m x ≡ none → lookup x n ≡ none = λ x h.
      elim (Option-cases (lookup x n)) [
        | inl e ↦ e
        | inr (a, e) ↦ absurd (ground (arith, kept x a e, h))
      ] in
    let fresh = chosen-Fresh current next m n s t configured idle in
    let once = IsSorted-IsUnique (chosen next current) (chosen-IsSorted current next t) in
    let adding = add_probes_lem at (chosen next current) left once fresh removal.unique in
    (
      λ x a h.
          let o = lookup x (chosen next current) in
          let loaded = probe_of_dir at d left x o removal.only.plugin_dir in
          let reached : otherwise (lookup x n) (probe_of at d x o) ≡ some a =
            ap (otherwise (lookup x n)) (sym loaded) ∙ adding.within x a h in
          sym (expected_lem current next m (λ y. loaded_probe (at y) d y) x s t configured)
          ∙ spared_or_picked current next m n (λ y. loaded_probe (at y) d y) x a (kept x)
              (λ c e. chosen-spared current next m x c s t configured e) reached,
      adding.unique,
      ProbesOnly-trans d left _ removal.only adding.only,
    )
