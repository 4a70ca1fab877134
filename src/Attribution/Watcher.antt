-- ===== src/Attribution/Watcher.antt =====
-- src/core/attribution/cgroup_watcher_events.h, translate.h, translate.cpp and cgroup_watcher.cpp: the
-- events of the kernel side of the watcher, and what they do to the resolver.
use slurm_tracer.Common.{
  ℕ, ◌+◌, ◌≤◌, ◌<◌, ◌≡◌, ◌≢◌, ◌∙◌, ap, Bool, true, false, ◌++◌, ◌∷◌, Option, none, some, arith, ltb,
  ◌==◌, if◌then◌else◌, length,
}
use slurm_tracer.Text.{Bytes}
use slurm_tracer.Text.Find.{Lacks}
use slurm_tracer.Events.{EventHdr, bounded_text, bounded_text-terminated}
use slurm_tracer.Attribution.Path.{Attribution, parse_cgroup_path}
use slurm_tracer.Attribution.Resolver.{CgroupResolver, on_created, on_removed, resolve}
use slurm_tracer.Attribution.Resolver.Lookup.{resolve-on_created}

abbrev pub cgroup_path_len : ℕ
cgroup_path_len = 256

abbrev pub cgroup_event_create : ℕ
cgroup_event_create = 1

abbrev pub cgroup_event_remove : ℕ
cgroup_event_remove = 2

pub record CgroupEvent : Type 0 where
  pub hdr : EventHdr
  pub path : Bytes

-- sizeof(st_cgroup_event): a header of 32 bytes, and the path.
abbrev pub cgroup_event_size : ℕ
cgroup_event_size = 32 + 256

pub record CgroupLifecycleUpdate : Type 0 where
  pub created : Bool
  pub cgroup_id : ℕ
  pub ts_ns : ℕ
  pub path : Bytes

-- `none` is a result of false, where the update is left unspecified.
unfoldable pub translate : CgroupEvent → Option CgroupLifecycleUpdate
translate e =
    if e.hdr.type == cgroup_event_create
    then some (update true)
    else if e.hdr.type == cgroup_event_remove
    then some (update false)
    else none
  where
    update : Bool → CgroupLifecycleUpdate
    update created = record {
      created = created;
      cgroup_id = e.hdr.cgroup_id;
      ts_ns = e.hdr.ts_ns;
      path = bounded_text e.path cgroup_path_len;
    }

-- `e` is what the bytes at `data` hold when read as an event, and `len` is their number.
unfoldable pub on_event : CgroupResolver → ℕ → CgroupEvent → CgroupResolver
unfolding translate
on_event resolver len e = if ltb len cgroup_event_size then resolver else (elim (translate e) [
  | none ↦ resolver
  | some u ↦
      if u.created
      then on_created resolver u.cgroup_id u.path u.ts_ns
      else on_removed resolver u.cgroup_id u.ts_ns
])

-- Every event in full: a whole one of a creation records the path up to its terminator or to the end
-- of the array, a whole one of a removal starts the grace period, and any other leaves the resolver.
pub on_event_branches :
    (r : CgroupResolver) (len : ℕ) (e : CgroupEvent)
    → (cgroup_event_size ≤ len
        → e.hdr.type ≡ cgroup_event_create
        → on_event r len e
          ≡ on_created r e.hdr.cgroup_id (bounded_text e.path cgroup_path_len) e.hdr.ts_ns)
      × (cgroup_event_size ≤ len
          → e.hdr.type ≡ cgroup_event_remove
          → on_event r len e ≡ on_removed r e.hdr.cgroup_id e.hdr.ts_ns)
      × (len < cgroup_event_size → on_event r len e ≡ r)
      × (e.hdr.type ≢ cgroup_event_create → e.hdr.type ≢ cgroup_event_remove → on_event r len e ≡ r)
unfolding on_event
on_event_branches r len e =
    (λ h k. ground arith, λ h k. ground arith, λ h. ground arith, λ h k. ground arith)

-- From the kernel to the answer: once the event of a job cgroup's creation is handled, an event of any
-- later time that bears the cgroup's id is resolved to the job of the path, if the path is shorter than
-- the array and so terminated in it.
pub resolve-on_event :
    (r : CgroupResolver) (e : CgroupEvent) (len ts : ℕ) (path rest : Bytes) (attr : Attribution)
    → cgroup_event_size ≤ len
    → e.hdr.type ≡ cgroup_event_create
    → e.path ≡ path ++ 0 ∷ rest
    → Lacks 0 path
    → length path < cgroup_path_len
    → parse_cgroup_path path ≡ some attr
    → e.hdr.ts_ns ≤ ts
    → (resolve (on_event r len e) e.hdr.cgroup_id ts).0 ≡ some attr
resolve-on_event r e len ts path rest attr whole create stored clean short parsed after =
    let text : bounded_text e.path cgroup_path_len ≡ path =
      ap (λ p. bounded_text p cgroup_path_len) stored
      ∙ bounded_text-terminated path rest cgroup_path_len clean short in
    let made = (on_event_branches r len e).0 whole create in
    rw (made, text) ((resolve-on_created r e.hdr.cgroup_id e.hdr.ts_ns path attr parsed).0 ts after)
