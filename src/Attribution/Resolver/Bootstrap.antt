-- ===== src/Attribution/Resolver/Bootstrap.antt =====
-- The one scan of the cgroup tree at start: `add_dir`, `add_subtree`, `scan` and `start` of
-- CgroupResolver in src/core/attribution/attribution.cpp.
pub mod Inside
pub mod Walk
use slurm_tracer.Common.{
  ℕ, zero, suc, ◌+◌, ◌*◌, ◌%◌, ◌<◌, ◌≤◌, ◌≡◌, ◌≢◌, refl, Bool, true, false, not, ◌&&◌, ◌||◌, List,
  [], ◌∷◌, ◌++◌, Option, none, some, arith, ltb, if◌then◌else◌, Option-cases, inl, inr,
}
use mathlib.Core.List.{reverse, reverse-append}
use slurm_tracer.Text.{Bytes, codes, same}
use slurm_tracer.Words.{incr64, sub64, add64, u64}
use slurm_tracer.Dict.{nat_key, insert}
use slurm_tracer.Attribution.Files.{
  FileSystem, Stat, Dirent, DirentType, dt_dir, dt_unknown, dt_other, is_dir,
}
use slurm_tracer.Attribution.Path.{parse_cgroup_path}
use slurm_tracer.Attribution.Resolver.{CgroupResolver, fresh_entry}

-- The directory's ctime on CLOCK_MONOTONIC; `offset` is what `boot_offset_ns` returns.
unfoldable pub created_from_ctime : ℕ → Stat → ℕ
created_from_ctime offset st =
    let ctime_realtime = add64 (st.ctim.tv_sec * 1_000_000_000 % u64) st.ctim.tv_nsec in
    if ltb offset ctime_realtime then sub64 ctime_realtime offset else 0

unfoldable pub add_dir : FileSystem → ℕ → CgroupResolver → Bytes → CgroupResolver
add_dir fs offset r abs_path = elim (fs.stat abs_path) [
  | none ↦ r
  | some st ↦ elim (parse_cgroup_path abs_path) [
    | none ↦ r
    | some attr ↦ record r {
      entries = insert st.ino (fresh_entry attr (created_from_ctime offset st)) r.entries;
    }
  ]
]

abbrev pub is_dot : Bytes → Bool
is_dot name = same name (codes ".") || same name (codes "..")

abbrev pub enters : FileSystem → Bytes → DirentType → Bool
enters fs child dt_dir = true
enters fs child dt_unknown = is_dir fs child
enters fs child dt_other = false

-- The children that the inner loop pushes, in the order in which readdir gives them.
unfoldable pub children : FileSystem → Bytes → List Dirent → List Bytes
children fs current [] = []
children fs current (ent ∷ ents) =
    let child = current ++ (codes "/" ++ ent.name) in
    if not (is_dot ent.name) && enters fs child ent.d_type
    then child ∷ children fs current ents
    else children fs current ents

unfoldable pub children_of : FileSystem → Bytes → List Bytes
unfolding children
children_of fs current = elim (fs.read_dir current) [
  | none ↦ []
  | some ents ↦ children fs current ents
]

unfoldable pub visit : FileSystem → ℕ → CgroupResolver → Bytes → CgroupResolver
visit fs offset r current = if same current r.root then r else add_dir fs offset r current

-- The loop of `add_subtree`; the head of the list is the back of the vector. `none` is fuel run out.
unfoldable pub walk : ℕ → FileSystem → ℕ → CgroupResolver → List Bytes → Option CgroupResolver
walk zero fs offset r stack = none
walk (suc fuel) fs offset r [] = some r
walk (suc fuel) fs offset r (current ∷ stack) =
    walk fuel fs offset (visit fs offset r current) (reverse (children_of fs current) ++ stack)

abbrev pub count_scan : CgroupResolver → CgroupResolver
count_scan r = record r { stats = record s { rescans = incr64 s.rescans } }
  where
    open r use {stats as s}

unfoldable pub scan : ℕ → FileSystem → ℕ → CgroupResolver → Option CgroupResolver
unfolding walk
scan fuel fs offset r = elim (walk fuel fs offset r (r.root ∷ [])) [
  | none ↦ none
  | some q ↦ some (count_scan q)
]

-- The flag is what `start` returns.
unfoldable pub start : ℕ → FileSystem → ℕ → CgroupResolver → Option (CgroupResolver × Bool)
unfolding scan
start fuel fs offset r =
    if is_dir fs r.root
    then (elim (scan fuel fs offset r) [ none ↦ none | some q ↦ some (q, true) ])
    else some (r, false)
