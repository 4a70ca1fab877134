-- ===== src/Attribution/Resolver/Tests.antt =====
-- The scan of a small hierarchy, the choice of its root, and an event of the watcher.
use slurm_tracer.Common.{
  ℕ, ◌≡◌, ◌<◌, refl, ap, subst, ◌∙◌, sym, inl, inr, true, List, [], ◌∷◌, ◌++◌, Option, none, some,
  arith, if◌then◌else◌, Bool-cases, ◌==◌,
}
use slurm_tracer.Text.{Bytes, codes, starts_with, all_digits, strtoul, same}
use slurm_tracer.Text.Laws.{same_iff}
use slurm_tracer.Dict.{nat_key, lookup}
use slurm_tracer.Attribution.Files.{Stat, Dirent, dt_dir, FileSystem, is_dir}
use slurm_tracer.Attribution.Path.{
  Attribution, split_path, parse_numeric_suffix, absorb, parse_cgroup_path,
}
use slurm_tracer.Attribution.Resolver.{CgroupResolver, new_resolver, resolve, fresh_entry}
use slurm_tracer.Attribution.Resolver.Bootstrap.{start, children, children_of, created_from_ctime}
use slurm_tracer.Attribution.Resolver.Bootstrap.Inside.{here, down}
use slurm_tracer.Attribution.Resolver.Bootstrap.Walk.{
  IsFinite, HasDistinctInodes, total, start_finds,
}
use slurm_tracer.Attribution.Root.{discover_cgroup_root, discover_override_iff}
use slurm_tracer.Attribution.Watcher.{
  CgroupEvent, cgroup_event_create, cgroup_event_size, on_event, on_event_branches,
  resolve-on_event,
}

abbrev root_path : Bytes
root_path = codes "/cg"

abbrev job_dir : Bytes
job_dir = codes "/cg/job_7"

-- A root of inode 1 with one job directory, of inode 2, created 50 nanoseconds after the boot.
abbrev directory : ℕ → Stat
directory ino = record {
  is_directory = true;
  ino = ino;
  ctim = record { tv_sec = 0; tv_nsec = 50 };
}

abbrev small_stat : Bytes → Option Stat
small_stat p =
    if same p root_path
    then some (directory 1)
    else if same p job_dir
    then some (directory 2)
    else none

abbrev small_read : Bytes → Option (List Dirent)
small_read p =
    if same p root_path then some (record { name = codes "job_7"; d_type = dt_dir } ∷ []) else none

abbrev small : FileSystem
small = record {
  stat = small_stat;
  read_dir = small_read;
  read_lines = λ p. none;
  glob = λ p. none;
}

abbrev weight : Bytes → ℕ
weight p = if same p root_path then 3 else 1

small-IsFinite : IsFinite small weight
unfolding children_of children same
small-IsFinite dir = elim (Bool-cases (same dir root_path)) [
  | inl e ↦
      subst (λ d. total weight (children_of small d) < weight d)
        (sym ((same_iff dir root_path).0 e)) (omega arith)
  | inr e ↦ rw (e, children_of) (omega arith)
]

small_at :
    (p : Bytes) (st : Stat)
    → small_stat p ≡ some st
    → p ≡ (if st.ino == 1 then root_path else job_dir)
small_at p st h = ground (arith, same_iff p root_path, same_iff p job_dir)

small-HasDistinctInodes : HasDistinctInodes small root_path
small-HasDistinctInodes p q st st' at at' h k e =
    small_at p st h ∙ ap (λ i. if i == 1 then root_path else job_dir) e ∙ sym (small_at q st' k)

abbrev r0 : CgroupResolver
r0 = new_resolver root_path 1_000

abbrev seven : Attribution
seven = record { job_id = 7; step_id = []; task_id = none }

start_finds_example :
    (q : CgroupResolver) × (start 4 small 0 r0 ≡ some (q, true))
    × (lookup 2 q.entries ≡ some (fresh_entry seven (created_from_ctime 0 (directory 2))))
unfolding is_dir same new_resolver children_of children parse_cgroup_path split_path absorb
    parse_numeric_suffix starts_with all_digits strtoul
start_finds_example =
    let (q, e, found) =
      start_finds weight 4 small 0 r0 small-IsFinite (omega arith) small-HasDistinctInodes refl in
    (q, e, found job_dir (down (inl refl) here) refl (directory 2) seven refl refl)

discover_override_run : discover_cgroup_root small root_path [] ≡ some root_path
unfolding is_dir same
discover_override_run = (discover_override_iff small b'/' (codes "cg") root_path []).1 refl

abbrev creation : CgroupEvent
creation = record {
  hdr = record {
    ts_ns = 500;
    cgroup_id = 9;
    type = cgroup_event_create;
    pid = 1;
    tid = 1;
    uid = 0;
  };
  path = codes "/cg/job_7" ++ 0 ∷ 0 ∷ [];
}

on_event_branches_run : on_event r0 10 creation ≡ r0
on_event_branches_run = (on_event_branches r0 10 creation).2 (omega arith)

resolve-on_event_example : (resolve (on_event r0 cgroup_event_size creation) 9 600).0 ≡ some seven
unfolding parse_cgroup_path split_path absorb parse_numeric_suffix starts_with all_digits strtoul
resolve-on_event_example =
    resolve-on_event r0 creation cgroup_event_size 600 job_dir (0 ∷ []) seven (omega arith) refl
      refl (ground arith) (omega arith) refl (omega arith)
