-- ===== src/Daemon/Running/Probes.antt =====
-- `remove_probe` on the map of the running probes, and what else they leave alone.
use mathlib.Core.Option.{some-injective}
use slurm_tracer.Common.{
  ℕ, ◌≡◌, refl, sym, ap, ◌∙◌, inl, inr, List, [], ◌∷◌, none, some, true, false, arith, Option-cases,
  Bool-cases,
}
use slurm_tracer.Text.{Bytes, same}
use slurm_tracer.Text.Laws.{same_iff, same_refl}
use slurm_tracer.Dict.{text_key, lookup}
use slurm_tracer.PluginLoader.{unload_probe}
use slurm_tracer.EventLoop.{remove}
use slurm_tracer.Daemon.{
  LoadedProbe, Daemon, Machine, take_probe, take_address, forget, forget_all, remove_probe,
}
use slurm_tracer.Daemon.Taken.{Taken, first, later, take_probe-Taken, take_address-Taken}
use slurm_tracer.Daemon.Running.{Running, IsUnique, probes_running}

-- What an operation on the probes leaves as it was.
pub record ProbesOnly (d e : Daemon) : Type 0 where
  pub config : e.config ≡ d.config
  pub config_path : e.config_path ≡ d.config_path
  pub sinks : e.sinks ≡ d.sinks
  pub pipeline : e.pipeline ≡ d.pipeline
  pub plugin_dir : e.loader.plugin_dir ≡ d.loader.plugin_dir

pub ProbesOnly-refl : (d : Daemon) → ProbesOnly d d
ProbesOnly-refl d = record {
  config = refl;
  config_path = refl;
  sinks = refl;
  pipeline = refl;
  plugin_dir = refl;
}

pub ProbesOnly-trans : (d e f : Daemon) → ProbesOnly d e → ProbesOnly e f → ProbesOnly d f
ProbesOnly-trans d e f h k = record {
  config = k.config ∙ h.config;
  config_path = k.config_path ∙ h.config_path;
  sinks = k.sinks ∙ h.sinks;
  pipeline = k.pipeline ∙ h.pipeline;
  plugin_dir = k.plugin_dir ∙ h.plugin_dir;
}

-- Whatever runs under an id in the first map runs under it in the second.
abbrev pub Within : Running → Running → Type 0
Within m n = (x : Bytes) (a : ℕ) → lookup x m ≡ some a → lookup x n ≡ some a

lookup-same :
    (id x : Bytes) (a : ℕ) (m : Running)
    → (same id x ≡ true → lookup x ((id, a) ∷ m) ≡ some a)
      × (same id x ≡ false → lookup x ((id, a) ∷ m) ≡ lookup x m)
unfolding lookup
lookup-same id x a m = (λ e. rw (e, lookup) refl, λ e. rw (e, lookup) refl)

pub Within-none : (m n : Running) (x : Bytes) → Within m n → lookup x n ≡ none → lookup x m ≡ none
Within-none m n x within h = elim (Option-cases (lookup x m)) [
  | inl e ↦ e
  | inr (a, e) ↦ absurd (ground (arith, within x a e, h))
]

Within-cons : (id : Bytes) (a : ℕ) (m n : Running) → Within m n → Within ((id, a) ∷ m) ((id, a) ∷ n)
unfolding lookup
Within-cons id a m n within x b h = ground (arith, within x b)

-- A map that is left when one entry is taken out.
pub Taken-running :
    (p : LoadedProbe) (rest qs : List LoadedProbe)
    → Taken p rest qs
    → IsUnique (probes_running qs)
    → IsUnique (probes_running rest)
      × (lookup p.id (probes_running rest) ≡ none)
      × (lookup p.id (probes_running qs) ≡ some p.probe)
      × Within (probes_running rest) (probes_running qs)
Taken-running p rest [] t u = elim t [ ]
Taken-running p rest (q ∷ qs) first u = (
  u.1,
  u.0,
  (lookup-same q.id q.id q.probe (probes_running qs)).0 (same_refl q.id),
  λ x a h. elim (Bool-cases (same q.id x)) [
    | inl e ↦
        let gone = ap (λ k. lookup k (probes_running rest)) (sym ((same_iff q.id x).0 e)) ∙ u.0 in
        absurd (ground (arith, h, gone))
    | inr e ↦ (lookup-same q.id x q.probe (probes_running qs)).1 e ∙ h
  ],
)
Taken-running p (r ∷ rest) (q ∷ qs) (later t) u =
    let (unique, gone, stood, within) = Taken-running p rest qs t u.1 in
    let absent = Within-none (probes_running rest) (probes_running qs) q.id within u.0 in
    elim (Bool-cases (same q.id p.id)) [
      | inl e ↦
          let missing =
            ap (λ k. lookup k (probes_running qs)) (sym ((same_iff q.id p.id).0 e)) ∙ u.0 in
          absurd (ground (arith, stood, missing))
      | inr e ↦ (
        (absent, unique),
        (lookup-same q.id p.id q.probe (probes_running rest)).1 e ∙ gone,
        (lookup-same q.id p.id q.probe (probes_running qs)).1 e ∙ stood,
        Within-cons q.id q.probe (probes_running rest) (probes_running qs) within,
      )
    ]

-- What a removal of probes does: fewer run than before, each still under its id.
pub record Fewer (d e : Daemon) : Type 0 where
  pub unique : IsUnique (probes_running e.probes)
  pub within : Within (probes_running e.probes) (probes_running d.probes)
  pub only : ProbesOnly d e

pub Fewer-refl : (d : Daemon) → IsUnique (probes_running d.probes) → Fewer d d
Fewer-refl d u = record { unique = u; within = λ x a h. h; only = ProbesOnly-refl d }

pub Fewer-trans : (d e f : Daemon) → Fewer d e → Fewer e f → Fewer d f
Fewer-trans d e f h k = record {
  unique = k.unique;
  within = λ x a l. h.within x a (k.within x a l);
  only = ProbesOnly-trans d e f h.only k.only;
}

pub forget-Fewer :
    (d : Daemon) (dead : ℕ) → IsUnique (probes_running d.probes) → Fewer d (forget d dead).0
unfolding forget unload_probe
forget-Fewer d dead u = elim (Option-cases (take_address dead d.probes)) [
  | inl e ↦ rw (e, forget) (Fewer-refl d u)
  | inr ((p, rest), e) ↦
      let (t, at) = take_address-Taken dead d.probes p rest e in
      let (unique, gone, stood, within) = Taken-running p rest d.probes t u in
      rw (e, forget)
        (record {
          unique = unique;
          within = within;
          only = record {
            config = refl;
            config_path = refl;
            sinks = refl;
            pipeline = refl;
            plugin_dir = refl;
          };
        })
]

forget_all-Fewer :
    (dead : List ℕ) (d : Daemon)
    → IsUnique (probes_running d.probes)
    → Fewer d (forget_all d dead).0
unfolding forget_all
forget_all-Fewer [] d u = Fewer-refl d u
forget_all-Fewer (x ∷ xs) d u =
    let h = forget-Fewer d x u in
    Fewer-trans d (forget d x).0 (forget_all (forget d x).0 xs).0 h
      (forget_all-Fewer xs (forget d x).0 h.unique)

take_probe-eq-none :
    (id : Bytes) (qs : List LoadedProbe)
    → take_probe id qs ≡ none
    → lookup id (probes_running qs) ≡ none
unfolding take_probe lookup
take_probe-eq-none id [] h = refl
take_probe-eq-none id (q ∷ qs) h = elim (Option-cases (take_probe id qs)) [
  | inl e ↦ ground (arith, take_probe-eq-none id qs e)
  | inr (r, e) ↦ absurd (ground arith)
]

pub take_probe-id :
    (id : Bytes) (qs : List LoadedProbe) (p : LoadedProbe) (rest : List LoadedProbe)
    → take_probe id qs ≡ some (p, rest)
    → p.id ≡ id
unfolding take_probe
take_probe-id id [] p rest h = cc
take_probe-id id (q ∷ qs) p rest h = elim (Bool-cases (same q.id id)) [
  | inl e ↦
      let found = some-injective (q, qs) (p, rest) (rw (e, take_probe) at h) in
      ap (λ x. x.0.id) (sym found) ∙ (same_iff q.id id).0 e
  | inr e ↦ elim (Option-cases (take_probe id qs)) [
    | inl f ↦ absurd (ground (arith, rw (e, f, take_probe) at h))
    | inr ((r, rs), f) ↦
        let found = some-injective (r, q ∷ rs) (p, rest) (rw (e, f, take_probe) at h) in
        ap (λ x. x.0.id) (sym found) ∙ take_probe-id id qs r rs f
  ]
]

-- The probe of the id is gone, and no other has come in its place.
pub remove_probe_lem :
    (m : Machine) (d : Daemon) (id : Bytes)
    → IsUnique (probes_running d.probes)
    → Fewer d (remove_probe m d id).0
      × (lookup id (probes_running (remove_probe m d id).0.probes) ≡ none)
unfolding remove_probe unload_probe
remove_probe_lem m d id u = elim (Option-cases (take_probe id d.probes)) [
  | inl e ↦ rw (e, remove_probe) (Fewer-refl d u, take_probe-eq-none id d.probes e)
  | inr ((p, rest), e) ↦
      let t = take_probe-Taken id d.probes p rest e in
      let (unique, gone, stood, within) = Taken-running p rest d.probes t u in
      let left : Daemon = record d {
        loop = (remove m.bpf d.loop p.probe).1;
        loader = (unload_probe d.loader id).0;
        probes = rest;
      } in
      let fewer : Fewer d left = record {
        unique = unique;
        within = within;
        only = record {
          config = refl;
          config_path = refl;
          sinks = refl;
          pipeline = refl;
          plugin_dir = refl;
        };
      } in
      let dead = (remove m.bpf d.loop p.probe).0 in
      let more = forget_all-Fewer dead left unique in
      let its_id = take_probe-id id d.probes p rest e in
      let absent = ap (λ k. lookup k (probes_running rest)) (sym its_id) ∙ gone in
      rw (e, remove_probe)
        (
          Fewer-trans d left (forget_all left dead).0 fewer more,
          Within-none (probes_running (forget_all left dead).0.probes) (probes_running rest) id
              more.within absent,
        )
]
