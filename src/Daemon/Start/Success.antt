-- ===== src/Daemon/Start/Success.antt =====
-- What is enough for a start to succeed.
use mathlib.Core.Option.{some-injective}
use slurm_tracer.Common.{
  ℕ, ◌≡◌, refl, sym, ap, ◌∙◌, inl, inr, ◌&&◌, [], ◌∷◌, ◌++◌, List, Option, some, true, false, arith,
  Option-cases, Bool-cases,
}
use slurm_tracer.Text.{Bytes, same}
use slurm_tracer.Text.Laws.{same_iff}
use slurm_tracer.Dict.{text_key, lookup}
use slurm_tracer.Config.{ComponentConfig, plugin_of}
use slurm_tracer.EventLoop.{Binding, Bpf, EventLoop, add}
use slurm_tracer.PluginLoader.{load_probe}
use slurm_tracer.BpfProbe.{new_probe, open_skeleton, load, attach}
use slurm_tracer.Daemon.{LoadedProbe, Daemon, Machine, add_probe}
use slurm_tracer.Daemon.Start.{Startup, bring_up, start_cgroup_watcher, add_probes, has_none}
use slurm_tracer.Daemon.Running.{probes_running}
use slurm_tracer.Daemon.Running.Added.{loaded_probe, add_probe_lem}
use slurm_tracer.Daemon.Reload.Chosen.{Components}
use slurm_tracer.Daemon.Reload.Probes.{loaded_probe_dir}

-- libbpf refuses no binding.
abbrev pub Arms : Bpf → Type 0
Arms bpf = (rb : Option (List Binding)) (fd : Option ℕ) → bpf.arms rb fd ≡ true

add_armed :
    (bpf : Bpf) (loop : EventLoop) (probe out : ℕ) → Arms bpf → (add bpf loop probe out).0 ≡ true
unfolding add
add_armed bpf loop probe out arms = elim (Option-cases (bpf.ring_fd probe)) [
  | inl e ↦ rw (e, add) refl
  | inr (fd, e) ↦ rw (e, arms loop.rb (some fd), add) refl
]

has_none-snoc : {A : Type 0} → (xs : List A) (x : A) → has_none (xs ++ x ∷ []) ≡ false
has_none-snoc [] x = refl
has_none-snoc (y ∷ xs) x = refl

-- A probe that is loaded, and that opens, loads and attaches, runs.
runs_one :
    (m : Machine) (d : Daemon) (id : Bytes) (config : ComponentConfig) (a : ℕ)
    → Arms m.bpf
    → loaded_probe m d id config ≡ some a
    → has_none (add_probe m d id config).0.probes ≡ false
unfolding add_probe loaded_probe
runs_one m d id config a arms h =
    elim (Option-cases (load_probe m.linker d.loader id (plugin_of id config) config).component) [
      | inl e ↦ absurd (ground (arith, rw (e, loaded_probe) at h))
      | inr (c, e) ↦ elim (Bool-cases (m.opens c config && m.loads c && m.attaches c)) [
        | inr u ↦ absurd (ground (arith, rw (e, u, loaded_probe) at h))
        | inl u ↦
            rw (e, u, add_armed m.bpf d.loop c m.new_emitter arms, add_probe)
              (has_none-snoc d.probes _)
      ]
    ]

has_none-running : (ps : List LoadedProbe) → has_none (probes_running ps) ≡ has_none ps
has_none-running [] = refl
has_none-running (p ∷ ps) = refl

runs_on :
    (m : Machine) (d : Daemon) (id : Bytes) (config : ComponentConfig)
    → has_none d.probes ≡ false
    → has_none (add_probe m d id config).0.probes ≡ false
runs_on m d id config h =
    let e = (add_probe m d id config).0 in
    let back = sym (has_none-running e.probes) in
    elim (add_probe_lem m d id config).running [
      | inl k ↦ back ∙ ap has_none k ∙ has_none-running d.probes ∙ h
      | inr (a, _, k) ↦ back ∙ ap has_none k ∙ has_none-snoc (probes_running d.probes) (id, a)
    ]

run_on :
    (at : Bytes → Machine) (entries : Components) (d : Daemon)
    → has_none d.probes ≡ false
    → has_none (add_probes at entries d).0.probes ≡ false
unfolding add_probes
run_on at [] d h = h
run_on at ((id, config) ∷ rest) d h =
    run_on at rest (add_probe (at id) d id config).0 (runs_on (at id) d id config h)

pub run_some :
    (at : Bytes → Machine) (entries : Components) (d : Daemon) (x : Bytes)
    (config : ComponentConfig) (a : ℕ)
    → ((id : Bytes) → Arms (at id).bpf)
    → lookup x entries ≡ some config
    → loaded_probe (at x) d x config ≡ some a
    → has_none (add_probes at entries d).0.probes ≡ false
unfolding add_probes lookup
run_some at [] d x config a arms h k = cc
run_some at ((id, c) ∷ rest) d x config a arms h k =
    let e = (add_probe (at id) d id c).0 in
    elim (Bool-cases (same id x)) [
      | inl s ↦
          let it = (same_iff id x).0 s in
          let its : c ≡ config = some-injective c config (rw (s, lookup) at h) in
          let here : loaded_probe (at id) d id c ≡ some a =
            ap (λ y. loaded_probe (at y) d y c) it ∙ ap (loaded_probe (at x) d x) its ∙ k in
          run_on at rest e (runs_one (at id) d id c a (arms id) here)
      | inr s ↦
          let dir = (add_probe_lem (at id) d id c).only.plugin_dir in
          run_some at rest e x config a arms (rw (s, lookup) at h)
            (loaded_probe_dir (at x) d e x config dir ∙ k)
    ]

-- The watcher's skeleton opens, loads and attaches, and libbpf does not refuse its binding.
pub record Attaches (s : Startup) : Type 0 where
  pub skel : ℕ
  pub opens : s.ops.opens ≡ some skel
  pub loads : s.ops.loads skel ≡ true
  pub attaches : s.ops.attaches skel ≡ true
  pub arms : Arms s.bpf

bring_up_ok : (s : Startup) → Attaches s → (bring_up s.ops new_probe).ok ≡ true
unfolding bring_up open_skeleton load attach
bring_up_ok s h = ground (arith, h.opens, h.loads, h.attaches)

pub watcher_ok : (s : Startup) (d : Daemon) → Attaches s → (start_cgroup_watcher s d).ok ≡ true
unfolding start_cgroup_watcher
watcher_ok s d h =
    rw (bring_up_ok s h, add_armed s.bpf d.loop s.watcher s.pipeline h.arms, start_cgroup_watcher)
      refl
