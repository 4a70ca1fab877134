-- ===== src/EventLoop.antt =====
-- EventLoop of src/core/event_loop.h and event_loop.cpp: one ring buffer of libbpf for all probes. A probe
-- and an emitter are named by their addresses, and so is a binding's context by what the binding holds,
-- since a binding never moves. A ring buffer is the list of the contexts that its callbacks get.
pub mod Rearm
pub mod Tests
use slurm_tracer.Common.{
  ℕ, Bool, true, false, List, [], ◌∷◌, ◌++◌, Option, none, some, ◌==◌, if◌then◌else◌,
}

pub record Binding : Type 0 where
  pub probe : ℕ
  pub out : ℕ

pub record EventLoop : Type 0 where
  pub rb : Option (List Binding)
  pub bindings : List Binding

-- What the probes and libbpf answer during one call: the file descriptor of a probe, none where it is
-- negative, and whether ring_buffer__new (when there is no ring buffer) or ring_buffer__add succeeds.
pub record Bpf : Type 0 where
  pub ring_fd : ℕ → Option ℕ
  pub arms : Option (List Binding) → Option ℕ → Bool

-- `EventLoop loop;`
abbrev pub new_loop : EventLoop
new_loop = record { rb = none; bindings = [] }

abbrev pub contexts : Option (List Binding) → List Binding
contexts none = []
contexts (some cs) = cs

-- The ring buffer with one more callback.
abbrev pub with_context : Option (List Binding) → Binding → Option (List Binding)
with_context rb b = some (contexts rb ++ b ∷ [])

-- A binding that cannot be armed is pushed and popped again.
unfoldable pub add : Bpf → EventLoop → ℕ → ℕ → Bool × EventLoop
add bpf loop probe out = elim (bpf.ring_fd probe) [
  | none ↦ (true, loop)
  | some fd ↦
      let b : Binding = record { probe = probe; out = out } in
      if bpf.arms loop.rb (some fd)
      then (true, record { rb = with_context loop.rb b; bindings = loop.bindings ++ b ∷ [] })
      else (false, loop)
]

abbrev pub is_empty : EventLoop → Bool
is_empty loop = elim loop.rb [ none ↦ true | some cs ↦ false ]

-- What ring_buffer__poll returns: a number of events, -EINTR, or another error.
pub data Polled : Type 0 where
  events : ℕ → Polled
  interrupted failed : Polled

unfoldable pub poll : EventLoop → Polled → Bool
poll loop failed = is_empty loop
poll loop p = true

-- `find_if` with the `erase` of what it finds.
unfoldable pub erase_binding : ℕ → List Binding → Option (List Binding)
erase_binding probe [] = none
erase_binding probe (b ∷ bs) =
    let rest = erase_binding probe bs in
    if b.probe == probe then some bs else (elim rest [ none ↦ none | some cs ↦ some (b ∷ cs) ])

pub record Rearmed : Type 0 where
  pub rb : Option (List Binding)
  pub surviving : List Binding
  pub dropped : List ℕ

abbrev pub survives : Binding → Rearmed → Rearmed
survives b r = record r { surviving = b ∷ s }
  where
    open r use {surviving as s}

abbrev pub drops : Binding → Rearmed → Rearmed
drops b r = record r { dropped = b.probe ∷ d }
  where
    open r use {dropped as d}

-- The loop that arms what is left on a new ring buffer.
unfoldable pub rearm : Bpf → Option (List Binding) → List Binding → Rearmed
rearm bpf rb [] = record { rb = rb; surviving = []; dropped = [] }
rearm bpf rb (b ∷ bs) =
    let armed = rearm bpf (with_context rb b) bs in
    let unarmed = rearm bpf rb bs in
    if bpf.arms rb (bpf.ring_fd b.probe) then survives b armed else drops b unarmed

-- The probes that were dropped besides, and the loop.
unfoldable pub remove : Bpf → EventLoop → ℕ → List ℕ × EventLoop
remove bpf loop probe = elim (erase_binding probe loop.bindings) [
  | none ↦ ([], loop)
  | some bs ↦ let r = rearm bpf none bs in (r.dropped, record { rb = r.rb; bindings = r.surviving })
]
