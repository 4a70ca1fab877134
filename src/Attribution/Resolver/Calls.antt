-- ===== src/Attribution/Resolver/Calls.antt =====
-- Histories of calls of the resolver.
use slurm_tracer.Common.{ℕ, inl, inr, List, [], ◌∷◌, arith, ◌==◌, Bool-cases, Option-cases}
use slurm_tracer.Text.{Bytes}
use slurm_tracer.Dict.{nat_key, lookup, insert}
use slurm_tracer.Dict.Retain.{IsSorted, insert-IsSorted, retain-IsSorted}
use slurm_tracer.Attribution.Path.{Attribution, parse_cgroup_path}
use slurm_tracer.Attribution.Resolver.{
  CgroupResolver, Entry, fresh_entry, on_created, on_removed, expire, resolve,
}

-- The calls that the daemon makes of the resolver once it has started, with their arguments.
pub data Call : Type 0 where
  created : ℕ → Bytes → ℕ → Call
  removed : ℕ → ℕ → Call
  ticked : ℕ → Call
  resolved : ℕ → ℕ → Call

unfoldable pub call : CgroupResolver → Call → CgroupResolver
call r (created id path ts) = on_created r id path ts
call r (removed id ts) = on_removed r id ts
call r (ticked now) = expire r now
call r (resolved id ts) = (resolve r id ts).1

unfoldable pub run : CgroupResolver → List Call → CgroupResolver
unfolding call
run r [] = r
run r (c ∷ cs) = run (call r c) cs

abbrev pub HasOneEach : CgroupResolver → Type 0
HasOneEach r = IsSorted r.entries

pub on_created_cases {ℓ} :
    (P : CgroupResolver → Type ℓ) (r : CgroupResolver) (id ts : ℕ) (path : Bytes)
    → P r
    → ((attr : Attribution) → P (record r { entries = insert id (fresh_entry attr ts) r.entries }))
    → P (on_created r id path ts)
unfolding on_created
on_created_cases P r id ts path same grown = elim (Option-cases (parse_cgroup_path path)) [
  | inl e ↦ rw (e, on_created) same
  | inr (attr, e) ↦ rw (e, on_created) (grown attr)
]

pub on_removed_cases {ℓ} :
    (P : CgroupResolver → Type ℓ) (r : CgroupResolver) (id ts : ℕ)
    → P r
    → ((e : Entry) → P (record r { entries = insert id (record e { removed_ns = ts }) r.entries }))
    → P (on_removed r id ts)
unfolding on_removed
on_removed_cases P r id ts same marked = elim (Option-cases (lookup id r.entries)) [
  | inl e ↦ rw (e, on_removed) same
  | inr (old, e) ↦ elim (Bool-cases (old.removed_ns == 0)) [
    | inl live ↦ rw (e, on_removed) (rw live (marked old))
    | inr gone ↦ rw (e, on_removed) (rw gone same)
  ]
]

pub call-HasOneEach : (r : CgroupResolver) (c : Call) → HasOneEach r → HasOneEach (call r c)
unfolding call expire resolve
call-HasOneEach r (created id path ts) h =
    on_created_cases HasOneEach r id ts path h (λ attr. insert-IsSorted id _ r.entries h)
call-HasOneEach r (removed id ts) h =
    on_removed_cases HasOneEach r id ts h (λ e. insert-IsSorted id _ r.entries h)
call-HasOneEach r (ticked now) h = retain-IsSorted _ r.entries h
call-HasOneEach r (resolved id ts) h = ground arith

-- If every id has one entry at most, it has one at most after any calls.
pub run-HasOneEach : (r : CgroupResolver) (cs : List Call) → HasOneEach r → HasOneEach (run r cs)
unfolding run
run-HasOneEach r [] h = h
run-HasOneEach r (c ∷ cs) h = run-HasOneEach (call r c) cs (call-HasOneEach r c h)
