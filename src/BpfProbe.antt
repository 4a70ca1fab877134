-- ===== src/BpfProbe.antt =====
-- BpfProbe of src/core/probe/bpf_probe.h: the life of a libbpf skeleton, which is named by its address. A
-- method returns the probe with the calls that it makes of the skeleton's four functions.
pub mod Protocol
pub mod Tests
use slurm_tracer.Common.{ℕ, Bool, true, false, List, [], ◌∷◌, Option, none, some}

-- What the skeleton's functions do during one call: the skeleton that `open` gives, and whether `load` and
-- `attach` return 0.
pub record Ops : Type 0 where
  pub opens : Option ℕ
  pub loads : ℕ → Bool
  pub attaches : ℕ → Bool

pub data OpCall : Type 0 where
  opened loaded attached destroyed : ℕ → OpCall

pub record BpfProbe : Type 0 where
  pub skel : Option ℕ

abbrev pub new_probe : BpfProbe
new_probe = record { skel = none }

-- What a method leaves.
pub record Done : Type 0 where
  pub ok : Bool
  pub probe : BpfProbe
  pub calls : List OpCall

unfoldable pub open_skeleton : Ops → BpfProbe → Done
open_skeleton ops p = elim ops.opens [
  | none ↦ record { ok = false; probe = record { skel = none }; calls = [] }
  | some s ↦ record { ok = true; probe = record { skel = some s }; calls = opened s ∷ [] }
]

unfoldable pub load : Ops → BpfProbe → Done
load ops p = elim p.skel [
  | none ↦ record { ok = false; probe = p; calls = [] }
  | some s ↦ record { ok = ops.loads s; probe = p; calls = loaded s ∷ [] }
]

unfoldable pub attach : Ops → BpfProbe → Done
attach ops p = elim p.skel [
  | none ↦ record { ok = false; probe = p; calls = [] }
  | some s ↦ record { ok = ops.attaches s; probe = p; calls = attached s ∷ [] }
]

unfoldable pub detach : BpfProbe → BpfProbe × List OpCall
detach p = elim p.skel [ none ↦ (p, []) | some s ↦ (record { skel = none }, destroyed s ∷ []) ]

-- `ring_fd` of every probe and of the cgroup watcher: the descriptor of the skeleton's map of events, none
-- where the code gives -1.
unfoldable pub ring_fd : (ℕ → ℕ) → BpfProbe → Option ℕ
ring_fd map_fd p = elim p.skel [ none ↦ none | some s ↦ some (map_fd s) ]
