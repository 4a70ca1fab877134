-- ===== src/EventLoop/Tests.antt =====
-- A loop of three probes, one of which libbpf refuses while another leaves.
use slurm_tracer.Common.{ℕ, ◌≡◌, refl, [], ◌∷◌, ◌==◌, List, Option, none, some, map, not, true}
use slurm_tracer.EventLoop.{Binding, EventLoop, Bpf, new_loop, contexts, erase_binding, remove}
use slurm_tracer.EventLoop.Rearm.{
  Call, adds, removes, run, IsArmed, run-IsArmed, Parted, remove-Parted, remove_lem,
}

abbrev at : Option ℕ → ℕ
at none = 0
at (some fd) = fd

-- The descriptor of a probe is its address, and the one of probe 2 is refused.
abbrev refuses_2 : Bpf
refuses_2 = record { ring_fd = λ probe. some probe; arms = λ rb fd. not (at fd == 2) }

abbrev takes_all : Bpf
takes_all = record { ring_fd = λ probe. some probe; arms = λ rb fd. true }

abbrev b2 : Binding
b2 = record { probe = 2; out = 20 }

abbrev b3 : Binding
b3 = record { probe = 3; out = 30 }

abbrev three : EventLoop
three = record {
  rb = some (record { probe = 1; out = 10 } ∷ b2 ∷ b3 ∷ []);
  bindings = record { probe = 1; out = 10 } ∷ b2 ∷ b3 ∷ [];
}

abbrev history : List Call
history = adds takes_all 1 10 ∷ adds takes_all 2 20 ∷ adds takes_all 3 30 ∷ removes refuses_2 1 ∷ []

run-IsArmed_example : IsArmed (run new_loop history)
run-IsArmed_example = run-IsArmed history

remove-Parted_run :
    (ls : List Binding) × Parted (remove refuses_2 three 1).1.bindings ls (b2 ∷ b3 ∷ [])
    × ((remove refuses_2 three 1).0 ≡ map (λ b. b.probe) ls)
unfolding erase_binding
remove-Parted_run = remove-Parted refuses_2 three 1 (b2 ∷ b3 ∷ []) refl

remove_lem_run : erase_binding 1 (contexts (remove refuses_2 three 1).1.rb) ≡ none
unfolding erase_binding
remove_lem_run = (remove_lem refuses_2 three 1 (b2 ∷ b3 ∷ []) refl refl).0
