-- ===== src/Daemon/Mapped/Trace.antt =====
-- The order of the calls that create and destroy instances and that open and close their plugins.
use slurm_tracer.Common.{
  ℕ, zero, suc, ◌≡◌, refl, ap, ◌∙◌, inl, inr, List, [], ◌∷◌, ◌++◌, map, Option, none, some, true,
  arith, is_some, Option-cases,
}
use slurm_tracer.Text.{Bytes, codes}
use slurm_tracer.Dict.{Dict, text_key, lookup}
use slurm_tracer.Config.{ComponentConfig}
use slurm_tracer.PluginLoader.{
  Linker, PluginLoader, opened, closed, open_plugin, plugin_path, close_handle, component_of,
  load_probe, load_sink,
}
use slurm_tracer.Daemon.{Call, detached, flushed, created, destroyed, linked, operated}

-- The number of open plugins in excess of the instances that stand, after a call; none where there would be
-- more instances than open plugins.
abbrev pub after_call : ℕ → Call → Option ℕ
after_call n (linked (opened k)) = some (suc n)
after_call zero (linked (closed k)) = none
after_call (suc n) (linked (closed k)) = some n
after_call zero (created a) = none
after_call (suc n) (created a) = some n
after_call n (destroyed a) = some (suc n)
after_call n (detached a) = some n
after_call n (flushed a) = some n
after_call n (operated c) = some n

abbrev pub spare : ℕ → List Call → Option ℕ
spare n [] = some n
spare n (c ∷ cs) = elim (after_call n c) [ none ↦ none | some m ↦ spare m cs ]

-- Calls that need no plugin in excess, and leave none.
abbrev pub Exact : List Call → Type 0
Exact cs = (n : ℕ) → spare n cs ≡ some n

spare-append : (xs ys : List Call) (n m : ℕ) → spare n xs ≡ some m → spare n (xs ++ ys) ≡ spare m ys
spare-append [] ys n m h = ap (λ o. elim o [ none ↦ none | some k ↦ spare k ys ]) h
spare-append (x ∷ xs) ys n m h = elim (Option-cases (after_call n x)) [
  | inl e ↦ absurd (ground (arith, rw (e, spare) at h))
  | inr (k, e) ↦ rw (e, spare) (spare-append xs ys k m (rw (e, spare) at h))
]

pub Exact-append : (xs ys : List Call) → Exact xs → Exact ys → Exact (xs ++ ys)
Exact-append xs ys h k n = spare-append xs ys n n (h n) ∙ k n

-- Opening a plugin.
open_plugin_calls :
    (ld : Linker) (path symbol plugin : Bytes) (config : ComponentConfig)
    → let r = open_plugin ld path symbol plugin config in
      (r.0 ≡ none → Exact (map linked r.1))
      × ((c : ℕ × ℕ) → r.0 ≡ some c → (a : ℕ) → Exact (map linked r.1 ++ created a ∷ []))
unfolding open_plugin
open_plugin_calls ld path symbol plugin config = elim (Option-cases (ld.dlopen path)) [
  | inl e ↦ rw (e, open_plugin) (λ h n. refl, λ c h. cc)
  | inr (k, e) ↦ elim (Option-cases (component_of (ld.entry k symbol) plugin config)) [
    | inl f ↦ rw (e, f, open_plugin) (λ h n. refl, λ c h. cc)
    | inr (a, f) ↦ rw (e, f, open_plugin) (λ h. cc, λ c h a n. refl)
  ]
]

pub load_sink_calls :
    (ld : Linker) (l : PluginLoader) (id plugin : Bytes) (config : ComponentConfig)
    → let r = load_sink ld l id plugin config in
      (r.component ≡ none → Exact (map linked r.calls))
      × ((a : ℕ) → r.component ≡ some a → Exact (map linked r.calls ++ created a ∷ []))
unfolding load_sink
load_sink_calls ld l id plugin config =
    let path = plugin_path l.plugin_dir (codes "sink") plugin in
    let (without, with_one) = open_plugin_calls ld path (codes "st_register_sink") plugin config in
    elim (Option-cases (open_plugin ld path (codes "st_register_sink") plugin config).0) [
      | inl e ↦ rw (e, load_sink) (λ h. without e, λ a h. cc)
      | inr (c, e) ↦ rw (e, load_sink) (λ h. cc, λ a h. with_one c e a)
    ]

pub load_probe_calls :
    (ld : Linker) (l : PluginLoader) (id plugin : Bytes) (config : ComponentConfig)
    → let r = load_probe ld l id plugin config in
      (r.component ≡ none → Exact (map linked r.calls))
      × ((a : ℕ) → r.component ≡ some a → Exact (map linked r.calls ++ created a ∷ []))
unfolding load_probe
load_probe_calls ld l id plugin config =
    let path = plugin_path l.plugin_dir (codes "probe") plugin in
    let (without, with_one) = open_plugin_calls ld path (codes "st_register_probe") plugin config in
    elim (Option-cases (open_plugin ld path (codes "st_register_probe") plugin config).0) [
      | inl e ↦ rw (e, load_probe) (λ h. without e, λ a h. cc)
      | inr (c, e) ↦ rw (e, load_probe) (λ h. cc, λ a h. with_one c e a)
    ]

-- The plugin that is held is closed, once its instance is destroyed.
pub close_handle_calls :
    (a : ℕ) (handles : Dict Bytes ℕ) (id : Bytes)
    → is_some (lookup id handles) ≡ true
    → Exact (destroyed a ∷ map linked (close_handle handles id).1)
unfolding close_handle
close_handle_calls a handles id h n = elim (Option-cases (lookup id handles)) [
  | inl e ↦ absurd (ground (arith, e, h))
  | inr (k, e) ↦ rw (e, close_handle) refl
]
