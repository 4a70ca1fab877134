-- ===== src/Daemon/Mapped.antt =====
-- What the loader holds of the plugins of the instances that run.
pub mod Steps
pub mod Probes
pub mod Trace
pub mod Order
pub mod Held
pub mod Tests
use mathlib.Core.Option.{some-injective}
use slurm_tracer.Common.{
  ℕ, ◌≡◌, refl, sym, ap, subst, ◌∙◌, inl, inr, ◌&&◌, List, [], ◌∷◌, ◌++◌, Option, none, some, true,
  false, Bool, arith, if◌then◌else◌, Option-cases, Bool-cases, is_some,
}
use slurm_tracer.Text.{Bytes, codes, same}
use slurm_tracer.Text.Laws.{same_iff}
use slurm_tracer.Dict.{Dict, text_key, lookup, insert, erase}
use slurm_tracer.Dict.Laws.{lookup-insert}
use slurm_tracer.Dict.Retain.{lookup-erase_ne}
use slurm_tracer.Config.{ComponentConfig}
use slurm_tracer.PluginLoader.{
  Linker, PluginLoader, open_plugin, plugin_path, close_handle, load_probe, load_sink,
}
use slurm_tracer.Daemon.Running.{Running, lookup-snoc}
use slurm_tracer.Daemon.Running.Probes.{Within}

-- The plugin of every instance that runs is held.
abbrev pub IsMapped : Running → Dict Bytes ℕ → Type 0
IsMapped m handles = (x : Bytes) (a : ℕ) → lookup x m ≡ some a → is_some (lookup x handles) ≡ true

pub insert-IsMapped :
    (id : Bytes) (c k : ℕ) (m : Running) (handles : Dict Bytes ℕ)
    → IsMapped m handles
    → IsMapped (m ++ (id, c) ∷ []) (insert id k handles)
insert-IsMapped id c k m handles h x a l =
    let found = lookup-insert id x k handles in
    let runs = sym (lookup-snoc x id c m) ∙ l in
    elim (Bool-cases (same id x)) [
      | inl e ↦ ground (arith, found, e)
      | inr e ↦ elim (Option-cases (lookup x m)) [
        | inl f ↦ absurd (ground (arith, runs, e, f))
        | inr (b, f) ↦ ground (arith, found, e, h x b f)
      ]
    ]

-- An instance that has left may be unloaded.
pub close_handle-IsMapped :
    (id : Bytes) (m n : Running) (handles : Dict Bytes ℕ)
    → IsMapped m handles
    → Within n m
    → lookup id n ≡ none
    → IsMapped n (close_handle handles id).0
unfolding close_handle
close_handle-IsMapped id m n handles h within gone x a l =
    let held = h x a (within x a l) in
    elim (Bool-cases (same id x)) [
      | inl e ↦
          let idle = ap (λ y. lookup y n) (sym ((same_iff id x).0 e)) ∙ gone in
          absurd (ground (arith, l, idle))
      | inr e ↦ elim (Option-cases (lookup id handles)) [
        | inl f ↦ rw (f, close_handle) held
        | inr (k, f) ↦ rw (f, close_handle) (ground (arith, lookup-erase_ne id x handles e, held))
      ]
    ]

-- What loading does to the handles: a component comes with its handle, and without one nothing changes.
pub load_sink_handles :
    (ld : Linker) (l : PluginLoader) (id plugin : Bytes) (config : ComponentConfig)
    → let r = load_sink ld l id plugin config in
      (r.component ≡ none → r.loader ≡ l)
      × ((c : ℕ)
          → r.component ≡ some c
          → (k : ℕ) × (r.loader ≡ record l { sink_handles = insert id k l.sink_handles }))
unfolding load_sink
load_sink_handles ld l id plugin config =
    let path = plugin_path l.plugin_dir (codes "sink") plugin in
    elim (Option-cases (open_plugin ld path (codes "st_register_sink") plugin config).0) [
      | inl e ↦ rw (e, load_sink) (λ h. refl, λ c h. cc)
      | inr ((c, k), e) ↦ rw (e, load_sink) (λ h. cc, λ c h. (k, refl))
    ]

pub load_probe_handles :
    (ld : Linker) (l : PluginLoader) (id plugin : Bytes) (config : ComponentConfig)
    → let r = load_probe ld l id plugin config in
      (r.component ≡ none → r.loader ≡ l)
      × ((c : ℕ)
          → r.component ≡ some c
          → (k : ℕ) × (r.loader ≡ record l { probe_handles = insert id k l.probe_handles }))
unfolding load_probe
load_probe_handles ld l id plugin config =
    let path = plugin_path l.plugin_dir (codes "probe") plugin in
    elim (Option-cases (open_plugin ld path (codes "st_register_probe") plugin config).0) [
      | inl e ↦ rw (e, load_probe) (λ h. refl, λ c h. cc)
      | inr ((c, k), e) ↦ rw (e, load_probe) (λ h. cc, λ c h. (k, refl))
    ]

-- Taken in and unloaded again, an instance leaves what the others hold.
pub insert_close-IsMapped :
    (id : Bytes) (k : ℕ) (m : Running) (handles : Dict Bytes ℕ)
    → IsMapped m handles
    → lookup id m ≡ none
    → IsMapped m (close_handle (insert id k handles) id).0
insert_close-IsMapped id k m handles h fresh =
    let wider : IsMapped m (insert id k handles) = λ x a l. elim (Bool-cases (same id x)) [
      | inl e ↦ ground (arith, lookup-insert id x k handles, e)
      | inr e ↦ ground (arith, lookup-insert id x k handles, e, h x a l)
    ] in
    close_handle-IsMapped id m m (insert id k handles) wider (λ x a l. l) fresh
