-- ===== src/Attribution/Resolver.antt =====
-- CgroupResolver of src/core/attribution/attribution.h and attribution.cpp. A method takes the resolver
-- and returns it as it is afterwards; the clock and the file system are arguments.
pub mod Bootstrap
pub mod Tests
pub mod Lookup
pub mod Calls
pub mod Grace
use slurm_tracer.Common.{
  ℕ, [], Bool, true, false, not, ◌&&◌, Option, none, some, ltb, ◌==◌, if◌then◌else◌,
}
use slurm_tracer.Text.{Bytes}
use slurm_tracer.Words.{incr64, sub64}
use slurm_tracer.Clock.{Clocks, monotonic_ns}
use slurm_tracer.Dict.{Dict, nat_key, lookup, insert, retain}
use slurm_tracer.Attribution.Path.{Attribution, parse_cgroup_path}

pub record Entry : Type 0 where
  pub attr : Attribution
  pub created_ns : ℕ
  -- 0 while the cgroup lives.
  pub removed_ns : ℕ

pub record Stats : Type 0 where
  pub hits : ℕ
  pub misses : ℕ
  pub rescans : ℕ
  pub stale : ℕ

pub record CgroupResolver : Type 0 where
  pub root : Bytes
  pub grace_ns : ℕ
  pub entries : Dict ℕ Entry
  pub stats : Stats

abbrev pub default_grace_ns : ℕ
default_grace_ns = 30_000_000_000

unfoldable pub new_resolver : Bytes → ℕ → CgroupResolver
new_resolver root grace_ns = record {
  root = root;
  grace_ns = grace_ns;
  entries = [];
  stats = record { hits = 0; misses = 0; rescans = 0; stale = 0 };
}

abbrev pub fresh_entry : Attribution → ℕ → Entry
fresh_entry attr created_ns = record { attr = attr; created_ns = created_ns; removed_ns = 0 }

unfoldable pub on_created : CgroupResolver → ℕ → Bytes → ℕ → CgroupResolver
on_created r cgroup_id path created_ns = elim (parse_cgroup_path path) [
  | none ↦ r
  | some attr ↦ record r { entries = insert cgroup_id (fresh_entry attr created_ns) r.entries }
]

unfoldable pub on_removed : CgroupResolver → ℕ → ℕ → CgroupResolver
on_removed r cgroup_id removed_ns = elim (lookup cgroup_id r.entries) [
  | none ↦ r
  | some e ↦
      if e.removed_ns == 0
      then record r { entries = insert cgroup_id (record e { removed_ns = removed_ns }) r.entries }
      else r
]

-- The test of `expire`, negated: the entry stays.
abbrev pub stays : ℕ → ℕ → Entry → Bool
stays now grace_ns e = not (not (e.removed_ns == 0) && ltb grace_ns (sub64 now e.removed_ns))

unfoldable pub expire : CgroupResolver → ℕ → CgroupResolver
expire r now = record r { entries = retain (λ _ e. stays now r.grace_ns e) r.entries }

unfoldable pub tick : CgroupResolver → Clocks → CgroupResolver
unfolding expire
tick r clocks = expire r (monotonic_ns clocks)

count_miss : CgroupResolver → CgroupResolver
count_miss r = record r { stats = record s { misses = incr64 s.misses } }
  where
    open r use {stats as s}

count_stale : CgroupResolver → CgroupResolver
count_stale r = record r { stats = record s { stale = incr64 s.stale } }
  where
    open r use {stats as s}

count_hit : CgroupResolver → CgroupResolver
count_hit r = record r { stats = record s { hits = incr64 s.hits } }
  where
    open r use {stats as s}

unfoldable pub resolve : CgroupResolver → ℕ → ℕ → Option Attribution × CgroupResolver
unfolding count_miss count_stale count_hit
resolve r cgroup_id event_ts_ns = elim (lookup cgroup_id r.entries) [
  | none ↦ (none, count_miss r)
  | some e ↦
      if not (event_ts_ns == 0) && ltb event_ts_ns e.created_ns
      then (none, count_stale r)
      else (some e.attr, count_hit r)
]
