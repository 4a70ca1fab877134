-- ===== src/Attribution/Resolver/Lookup.antt =====
-- What `resolve` answers, and what it counts.
use slurm_tracer.Common.{
  ℕ, ◌+◌, ◌≤◌, ◌<◌, ◌%◌, ◌≡◌, ◌≢◌, ◌⊎◌, inl, inr, ◌↔◌, none, some, arith, Option-cases,
}
use slurm_tracer.Words.{u64}
use slurm_tracer.Text.{Bytes}
use slurm_tracer.Dict.{nat_key, lookup}
use slurm_tracer.Dict.Laws.{lookup-insert, lookup-insert_self}
use slurm_tracer.Attribution.Path.{Attribution, parse_cgroup_path}
use slurm_tracer.Attribution.Resolver.{CgroupResolver, Entry, fresh_entry, on_created, resolve}

-- An event of this time may belong to the cgroup of this entry.
abbrev pub IsCurrent : ℕ → Entry → Type 0
IsCurrent ts e = (ts ≡ 0) ⊎ (e.created_ns ≤ ts)

-- A cgroup id is resolved to an attribution exactly when there is an entry of that id with that
-- attribution that was not created after the event (or the event has no time).
pub resolve_iff :
    (r : CgroupResolver) (id ts : ℕ) (attr : Attribution)
    → ((resolve r id ts).0 ≡ some attr)
      ↔ ((e : Entry) × (lookup id r.entries ≡ some e) × IsCurrent ts e × (e.attr ≡ attr))
unfolding resolve
resolve_iff r id ts attr = (
  λ h. elim (Option-cases (lookup id r.entries)) [
    | inl missing ↦ ground arith
    | inr (e, found) ↦ (e, found, ground arith, ground arith)
  ],
  λ (e, found, current, same). ground arith,
)

-- A call counts one of hits, misses and stale, by the answer and by whether the id is known, and
-- leaves the entries and the other two counters.
pub resolve_counts :
    (r : CgroupResolver) (id ts : ℕ)
    → let q = (resolve r id ts).1 in
      (q.entries ≡ r.entries)
      × (q.stats.rescans ≡ r.stats.rescans)
      × ((q.stats.hits + q.stats.misses + q.stats.stale) % u64
          ≡ (r.stats.hits + r.stats.misses + r.stats.stale + 1) % u64)
      × (((resolve r id ts).0 ≢ none) → q.stats.hits ≡ (r.stats.hits + 1) % u64)
      × (lookup id r.entries ≡ none → q.stats.misses ≡ (r.stats.misses + 1) % u64)
unfolding resolve
resolve_counts r id ts = ground arith

-- A cgroup that a path of job work was created for is resolved to what the path says at every later
-- time, while an event from before its creation is refused; and other ids are answered as before.
pub resolve-on_created :
    (r : CgroupResolver) (id created : ℕ) (path : Bytes) (attr : Attribution)
    → parse_cgroup_path path ≡ some attr
    → ((ts : ℕ) → created ≤ ts → (resolve (on_created r id path created) id ts).0 ≡ some attr)
      × ((ts : ℕ) → ts ≢ 0 → ts < created → (resolve (on_created r id path created) id ts).0 ≡ none)
      × ((other ts : ℕ)
          → other ≢ id
          → (resolve (on_created r id path created) other ts).0 ≡ (resolve r other ts).0)
unfolding resolve on_created
resolve-on_created r id created path attr h =
    let self = lookup-insert_self id (fresh_entry attr created) r.entries in
    (
      λ ts le. ground (arith, self),
      λ ts ne lt. ground (arith, self),
      λ other ts ne. ground (arith, lookup-insert id other (fresh_entry attr created) r.entries),
    )

-- An id that the kernel gave to a cgroup which is not job work keeps the entry of the job cgroup that
-- had it before: an event of the new cgroup is resolved to the old job.
pub resolve-recycled :
    (r : CgroupResolver) (id created ts : ℕ) (path : Bytes) (old : Entry)
    → parse_cgroup_path path ≡ none
    → lookup id r.entries ≡ some old
    → old.created_ns ≤ created
    → created ≤ ts
    → (resolve (on_created r id path created) id ts).0 ≡ some old.attr
unfolding resolve on_created
resolve-recycled r id created ts path old other found before after = ground arith
