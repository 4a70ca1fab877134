-- ===== src/PluginLoader/References.antt =====
-- The references that the loader holds on the plugins.
use slurm_tracer.Common.{
  ℕ, ◌+◌, ◌≡◌, refl, ap, inl, inr, List, [], ◌∷◌, ◌++◌, Option, none, some, arith, ◌==◌,
  if◌then◌else◌, Option-cases,
}
use slurm_tracer.Text.{Bytes, codes}
use slurm_tracer.Dict.{Dict, text_key, lookup, insert, erase}
use slurm_tracer.Config.{ComponentConfig}
use slurm_tracer.PluginLoader.{
  Linker, DlCall, opened, closed, component_of, open_plugin, plugin_path, close_handle,
  PluginLoader, new_loader, load_probe, load_sink, unload_probe, unload_sink,
}

abbrev pub one : ℕ → ℕ → ℕ
one k h = if k == h then 1 else 0

-- How often a handle was opened, was closed, and stands in a map.
unfoldable pub opens : ℕ → List DlCall → ℕ
opens h [] = 0
opens h (opened k ∷ cs) = one k h + opens h cs
opens h (closed k ∷ cs) = opens h cs

unfoldable pub closes : ℕ → List DlCall → ℕ
closes h [] = 0
closes h (opened k ∷ cs) = closes h cs
closes h (closed k ∷ cs) = one k h + closes h cs

unfoldable pub held : ℕ → Dict Bytes ℕ → ℕ
held h [] = 0
held h ((id, k) ∷ m) = one k h + held h m

opens-append : (h : ℕ) (xs ys : List DlCall) → opens h (xs ++ ys) ≡ opens h xs + opens h ys
unfolding opens
opens-append h [] ys = omega arith
opens-append h (opened k ∷ xs) ys = omega (arith, opens-append h xs ys)
opens-append h (closed k ∷ xs) ys = opens-append h xs ys

closes-append : (h : ℕ) (xs ys : List DlCall) → closes h (xs ++ ys) ≡ closes h xs + closes h ys
unfolding closes
closes-append h [] ys = omega arith
closes-append h (opened k ∷ xs) ys = closes-append h xs ys
closes-append h (closed k ∷ xs) ys = omega (arith, closes-append h xs ys)

held-insert :
    (h : ℕ) (id : Bytes) (k : ℕ) (m : Dict Bytes ℕ)
    → lookup id m ≡ none
    → held h (insert id k m) ≡ one k h + held h m
unfolding held insert lookup
held-insert h id k [] e = refl
held-insert h id k ((j, w) ∷ m) e = ground (arith, held-insert h id k m)

held-erase :
    (h : ℕ) (id : Bytes) (k : ℕ) (m : Dict Bytes ℕ)
    → lookup id m ≡ some k
    → one k h + held h (erase id m) ≡ held h m
unfolding held erase lookup
held-erase h id k [] e = cc
held-erase h id k ((j, w) ∷ m) e = ground (arith, held-erase h id k m)

-- Every handle is held as often as it was opened and not closed since.
abbrev pub IsBalanced : List DlCall → PluginLoader → Type 0
IsBalanced calls l =
    (h : ℕ) → opens h calls ≡ closes h calls + held h l.probe_handles + held h l.sink_handles

-- What opening a plugin leaves open is what it gives.
abbrev given : ℕ → Option (ℕ × ℕ) → ℕ
given h none = 0
given h (some (component, handle)) = one handle h

open_plugin_lem :
    (h : ℕ) (ld : Linker) (path symbol plugin : Bytes) (config : ComponentConfig)
    → let (found, calls) = open_plugin ld path symbol plugin config in
      opens h calls ≡ closes h calls + given h found
unfolding open_plugin opens closes
open_plugin_lem h ld path symbol plugin config = elim (Option-cases (ld.dlopen path)) [
  | inl e ↦ rw (e, open_plugin) refl
  | inr (k, e) ↦ elim (Option-cases (component_of (ld.entry k symbol) plugin config)) [
    | inl f ↦ rw (e, f, open_plugin) (omega arith)
    | inr (c, f) ↦ rw (e, f, open_plugin) (omega arith)
  ]
]

close_handle_lem :
    (h : ℕ) (handles : Dict Bytes ℕ) (id : Bytes)
    → let (rest, calls) = close_handle handles id in
      (opens h calls ≡ 0) × (closes h calls + held h rest ≡ held h handles)
unfolding close_handle opens closes
close_handle_lem h handles id = elim (Option-cases (lookup id handles)) [
  | inl e ↦ rw (e, close_handle) (refl, omega arith)
  | inr (k, e) ↦ rw (e, close_handle) (refl, omega (arith, held-erase h id k handles e))
]

load_probe_lem :
    (h : ℕ) (ld : Linker) (l : PluginLoader) (id plugin : Bytes) (config : ComponentConfig)
    → lookup id l.probe_handles ≡ none
    → let r = load_probe ld l id plugin config in
      (opens h r.calls + held h l.probe_handles ≡ closes h r.calls + held h r.loader.probe_handles)
      × (r.loader.sink_handles ≡ l.sink_handles)
unfolding load_probe
load_probe_lem h ld l id plugin config fresh =
    let path = plugin_path l.plugin_dir (codes "probe") plugin in
    let symbol = codes "st_register_probe" in
    let balance = open_plugin_lem h ld path symbol plugin config in
    elim (Option-cases (open_plugin ld path symbol plugin config).0) [
      | inl e ↦ rw (e, load_probe) (ground (arith, balance), refl)
      | inr ((c, k), e) ↦
          rw (e, load_probe)
            (ground (arith, balance, held-insert h id k l.probe_handles fresh), refl)
    ]

load_sink_lem :
    (h : ℕ) (ld : Linker) (l : PluginLoader) (id plugin : Bytes) (config : ComponentConfig)
    → lookup id l.sink_handles ≡ none
    → let r = load_sink ld l id plugin config in
      (opens h r.calls + held h l.sink_handles ≡ closes h r.calls + held h r.loader.sink_handles)
      × (r.loader.probe_handles ≡ l.probe_handles)
unfolding load_sink
load_sink_lem h ld l id plugin config fresh =
    let path = plugin_path l.plugin_dir (codes "sink") plugin in
    let symbol = codes "st_register_sink" in
    let balance = open_plugin_lem h ld path symbol plugin config in
    elim (Option-cases (open_plugin ld path symbol plugin config).0) [
      | inl e ↦ rw (e, load_sink) (ground (arith, balance), refl)
      | inr ((c, k), e) ↦
          rw (e, load_sink) (ground (arith, balance, held-insert h id k l.sink_handles fresh), refl)
    ]

-- The states that a loader comes to, each with all calls of the linker so far. An instance that is loaded
-- is not loaded again.
pub data Reach (dir : Bytes) : PluginLoader → List DlCall → Type 0 where
  starts : Reach dir (new_loader dir) []
  loads_probe :
      {l : PluginLoader} {calls : List DlCall} (ld : Linker) (id plugin : Bytes)
      (config : ComponentConfig)
      → Reach dir l calls
      → lookup id l.probe_handles ≡ none
      → Reach dir
          (load_probe ld l id plugin config).loader
          (calls ++ (load_probe ld l id plugin config).calls)
  loads_sink :
      {l : PluginLoader} {calls : List DlCall} (ld : Linker) (id plugin : Bytes)
      (config : ComponentConfig)
      → Reach dir l calls
      → lookup id l.sink_handles ≡ none
      → Reach dir
          (load_sink ld l id plugin config).loader
          (calls ++ (load_sink ld l id plugin config).calls)
  unloads_probe :
      {l : PluginLoader} {calls : List DlCall} (id : Bytes)
      → Reach dir l calls
      → Reach dir (unload_probe l id).0 (calls ++ (unload_probe l id).1)
  unloads_sink :
      {l : PluginLoader} {calls : List DlCall} (id : Bytes)
      → Reach dir l calls
      → Reach dir (unload_sink l id).0 (calls ++ (unload_sink l id).1)

-- Through loads that succeed, loads that fail at any point, and unloads, of instances that may share
-- plugins: each handle stands in the loader's two maps exactly as often as it was opened and not closed,
-- so that no failure leaks a reference and no unload takes one that another instance holds.
pub Reach-IsBalanced :
    (dir : Bytes) (l : PluginLoader) (calls : List DlCall) → Reach dir l calls → IsBalanced calls l
unfolding opens closes held new_loader unload_probe unload_sink
Reach-IsBalanced dir l calls starts h = omega arith
Reach-IsBalanced dir l calls (loads_probe {l = k} {calls = before} ld id plugin config r fresh) h =
    let now = load_probe ld k id plugin config in
    let (balance, others) = load_probe_lem h ld k id plugin config fresh in
    omega (
      arith,
      Reach-IsBalanced dir k before r h,
      opens-append h before now.calls,
      closes-append h before now.calls,
      balance,
      ap (held h) others,
    )
Reach-IsBalanced dir l calls (loads_sink {l = k} {calls = before} ld id plugin config r fresh) h =
    let now = load_sink ld k id plugin config in
    let (balance, others) = load_sink_lem h ld k id plugin config fresh in
    omega (
      arith,
      Reach-IsBalanced dir k before r h,
      opens-append h before now.calls,
      closes-append h before now.calls,
      balance,
      ap (held h) others,
    )
Reach-IsBalanced dir l calls (unloads_probe {l = k} {calls = before} id r) h =
    let (none_opened, balance) = close_handle_lem h k.probe_handles id in
    omega (
      arith,
      Reach-IsBalanced dir k before r h,
      opens-append h before (close_handle k.probe_handles id).1,
      closes-append h before (close_handle k.probe_handles id).1,
      none_opened,
      balance,
    )
Reach-IsBalanced dir l calls (unloads_sink {l = k} {calls = before} id r) h =
    let (none_opened, balance) = close_handle_lem h k.sink_handles id in
    omega (
      arith,
      Reach-IsBalanced dir k before r h,
      opens-append h before (close_handle k.sink_handles id).1,
      closes-append h before (close_handle k.sink_handles id).1,
      none_opened,
      balance,
    )
