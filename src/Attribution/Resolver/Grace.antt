-- ===== src/Attribution/Resolver/Grace.antt =====
-- How long an entry lives: the grace period after removal, over histories of calls.
use slurm_tracer.Common.{
  ℕ, ◌-◌, ◌≤◌, ◌<◌, ◌≡◌, ◌≢◌, refl, sym, ◌⊎◌, inl, inr, ◌∙◌, List, [], ◌∷◌, none, some, arith, All,
  ◌==◌, true, false, ap, Bool-cases, Option-cases, ==_iff,
}
use slurm_tracer.Words.{u64}
use slurm_tracer.Text.{Bytes}
use slurm_tracer.Dict.{nat_key, lookup, insert}
use slurm_tracer.Dict.Laws.{lookup-insert_self, lookup-insert_ne}
use slurm_tracer.Dict.Retain.{insert-IsSorted, lookup-retain, keep_if}
use slurm_tracer.Attribution.Path.{Attribution, parse_cgroup_path}
use slurm_tracer.Attribution.Resolver.Lookup.{resolve_iff}
use slurm_tracer.Attribution.Resolver.{
  CgroupResolver, Entry, fresh_entry, on_created, on_removed, expire, resolve, stays,
}
use slurm_tracer.Attribution.Resolver.Calls.{
  Call, created, removed, ticked, resolved, call, run, HasOneEach, on_created_cases,
  on_removed_cases, call-HasOneEach, run-HasOneEach,
}

-- A tick at this time is no later than the end of the entry's grace period.
abbrev pub WithinGrace : ℕ → ℕ → Entry → Type 0
WithinGrace grace now e =
    (e.removed_ns ≡ 0) ⊎ ((e.removed_ns ≤ now) × (now < u64) × (now - e.removed_ns ≤ grace))

-- A call that neither names the id in a creation or a removal, nor ends the grace period of its entry.
abbrev pub Spares : ℕ → ℕ → Entry → Call → Type 0
Spares grace id e (created other path ts) = other ≢ id
Spares grace id e (removed other ts) = other ≢ id
Spares grace id e (ticked now) = WithinGrace grace now e
Spares grace id e (resolved other ts) = Unit

stays_within : (grace now : ℕ) (e : Entry) → WithinGrace grace now e → stays now grace e ≡ true
stays_within grace now e (inl h) = ground arith
stays_within grace now e (inr (a, b, c)) = ground arith

not_stays_beyond :
    (grace now : ℕ) (e : Entry)
    → e.removed_ns ≢ 0
    → e.removed_ns ≤ now
    → now < u64
    → grace < now - e.removed_ns
    → stays now grace e ≡ false
not_stays_beyond grace now e h a b c = ground arith

lookup-expire :
    (r : CgroupResolver) (id now : ℕ)
    → HasOneEach r
    → lookup id (expire r now).entries ≡ keep_if (stays now r.grace_ns) (lookup id r.entries)
unfolding expire
lookup-expire r id now h = lookup-retain (λ _ e. stays now r.grace_ns e) id r.entries h

call-grace_ns : (r : CgroupResolver) (c : Call) → (call r c).grace_ns ≡ r.grace_ns
unfolding call on_created on_removed expire resolve
call-grace_ns r (created id path ts) = ground arith
call-grace_ns r (removed id ts) = ground arith
call-grace_ns r (ticked now) = refl
call-grace_ns r (resolved id ts) = ground arith

==_ne : {a b : ℕ} → a ≢ b → (a == b) ≡ false
==_ne h = ground arith

call-Spares :
    (r : CgroupResolver) (id : ℕ) (e : Entry) (c : Call)
    → HasOneEach r
    → lookup id r.entries ≡ some e
    → Spares r.grace_ns id e c
    → lookup id (call r c).entries ≡ some e
unfolding call resolve
call-Spares r id e (created other path ts) s h k =
    on_created_cases (λ q. lookup id q.entries ≡ some e) r other ts path h
      λ attr. lookup-insert_ne other id _ r.entries (==_ne k) ∙ h
call-Spares r id e (removed other ts) s h k =
    on_removed_cases (λ q. lookup id q.entries ≡ some e) r other ts h
      λ old. lookup-insert_ne other id _ r.entries (==_ne k) ∙ h
call-Spares r id e (ticked now) s h k =
    lookup-expire r id now s ∙ rw (h, stays_within r.grace_ns now e k)
call-Spares r id e (resolved other ts) s h k = ground arith

run-Spares :
    (r : CgroupResolver) (id : ℕ) (e : Entry) (cs : List Call)
    → HasOneEach r
    → lookup id r.entries ≡ some e
    → All (Spares r.grace_ns id e) cs
    → lookup id (run r cs).entries ≡ some e
unfolding run
run-Spares r id e [] s h k = h
run-Spares r id e (c ∷ cs) s h k =
    run-Spares (call r c) id e cs (call-HasOneEach r c s) (call-Spares r id e c s h k.0)
      (rw (call-grace_ns r c) k.1)

on_created_lem :
    (r : CgroupResolver) (id ts : ℕ) (path : Bytes) {attr : Attribution}
    → parse_cgroup_path path ≡ some attr
    → on_created r id path ts ≡ record r { entries = insert id (fresh_entry attr ts) r.entries }
unfolding on_created
on_created_lem r id ts path h = rw (h, on_created)

on_removed_lem :
    (r : CgroupResolver) (id ts : ℕ) {e : Entry}
    → lookup id r.entries ≡ some e
    → e.removed_ns ≡ 0
    → on_removed r id ts ≡ record r { entries = insert id (record e { removed_ns = ts }) r.entries }
unfolding on_removed
on_removed_lem r id ts h k = ground arith

-- Nothing is done for an id that has no entry, or one that is removed already.
on_removed_idle :
    (r : CgroupResolver) (id ts : ℕ)
    → ((e : Entry) → lookup id r.entries ≡ some e → e.removed_ns ≢ 0)
    → on_removed r id ts ≡ r
unfolding on_removed
on_removed_idle r id ts h = elim (Option-cases (lookup id r.entries)) [
  | inl e ↦ rw (e, on_removed)
  | inr (old, e) ↦ let gone = h old e in ground arith
]

run-grace_ns : (r : CgroupResolver) (cs : List Call) → (run r cs).grace_ns ≡ r.grace_ns
unfolding run
run-grace_ns r [] = refl
run-grace_ns r (c ∷ cs) = run-grace_ns (call r c) cs ∙ call-grace_ns r c

-- The resolver has this entry for the id, and this grace period.
record Holds (grace id : ℕ) (e : Entry) (r : CgroupResolver) : Type 0 where
  one : HasOneEach r
  found : lookup id r.entries ≡ some e
  period : r.grace_ns ≡ grace

created-Holds :
    (r : CgroupResolver) (id ts : ℕ) (path : Bytes) {attr : Attribution}
    → HasOneEach r
    → parse_cgroup_path path ≡ some attr
    → Holds r.grace_ns id (fresh_entry attr ts) (on_created r id path ts)
created-Holds r id ts path one parsed = rw (on_created_lem r id ts path parsed) (record {
  one = insert-IsSorted id _ r.entries one;
  found = lookup-insert_self id _ r.entries;
  period = refl;
})

removed-Holds :
    {grace id : ℕ} {e : Entry} {r : CgroupResolver}
    → Holds grace id e r
    → (ts : ℕ) → e.removed_ns ≡ 0
    → Holds grace id (record e { removed_ns = ts }) (on_removed r id ts)
removed-Holds {id = id} {r = r} h ts live = rw (on_removed_lem r id ts h.found live) (record {
  one = insert-IsSorted id _ r.entries h.one;
  found = lookup-insert_self id _ r.entries;
  period = h.period;
})

run-Holds :
    {grace id : ℕ} {e : Entry} {r : CgroupResolver}
    → Holds grace id e r
    → (cs : List Call) → All (Spares grace id e) cs
    → Holds grace id e (run r cs)
run-Holds {grace} {id} {e} {r} h cs k = record {
  one = run-HasOneEach r cs h.one;
  found = run-Spares r id e cs h.one h.found (rw h.period k);
  period = run-grace_ns r cs ∙ h.period;
}

-- The life of a job's cgroup, in a map with one entry for an id: it is created, then removed, with any
-- calls after each that do not name its id in a creation or a removal, and where every tick after the
-- removal comes from the time of the removal on and no later than the grace period after it. An event
-- of the cgroup that bears a time from its creation on is resolved to its job to the end.
pub resolve-lifetime :
    (r : CgroupResolver) (id made gone : ℕ) (path : Bytes) (attr : Attribution)
    (alive after : List Call) (ts : ℕ)
    → HasOneEach r
    → parse_cgroup_path path ≡ some attr
    → All (Spares r.grace_ns id (fresh_entry attr made)) alive
    → All
        (Spares r.grace_ns id (record { attr = attr; created_ns = made; removed_ns = gone }))
        after
    → made ≤ ts
    → (resolve (run (on_removed (run (on_created r id path made) alive) id gone) after) id ts).0
      ≡ some attr
resolve-lifetime r id made gone path attr alive after ts one parsed spared spared' le =
    let before = run-Holds (created-Holds r id made path one parsed) alive spared in
    let held = run-Holds (removed-Holds before gone refl) after spared' in
    (resolve_iff _ id ts attr).1 (_, held.found, inr le, refl)

-- In a map with one entry for an id: a removed cgroup's entry is gone after a tick past its grace
-- period, where the clock has not wrapped around, and its id is then resolved to nothing.
pub resolve-expired :
    (r : CgroupResolver) (id now ts : ℕ) (e : Entry)
    → HasOneEach r
    → lookup id r.entries ≡ some e
    → e.removed_ns ≢ 0
    → e.removed_ns ≤ now
    → now < u64
    → r.grace_ns < now - e.removed_ns
    → (resolve (expire r now) id ts).0 ≡ none
unfolding resolve
resolve-expired r id now ts e one found h a b c =
    ground (arith, lookup-expire r id now one, not_stays_beyond r.grace_ns now e h a b c)

idle_twice :
    (r : CgroupResolver) (id first second : ℕ)
    → ((e : Entry) → lookup id r.entries ≡ some e → e.removed_ns ≢ 0)
    → on_removed (on_removed r id first) id second ≡ on_removed r id first
idle_twice r id first second h =
    let idle = λ (ts : ℕ). on_removed_idle r id ts h in
    ap (λ (q : CgroupResolver). on_removed q id second) (idle first)
    ∙ idle second
    ∙ sym (idle first)

-- The grace period runs from the first removal: a second one changes nothing.
pub on_removed_twice :
    (r : CgroupResolver) (id first second : ℕ)
    → first ≢ 0
    → on_removed (on_removed r id first) id second ≡ on_removed r id first
on_removed_twice r id first second h = elim (Option-cases (lookup id r.entries)) [
  | inl e ↦ idle_twice r id first second (λ old k. ground arith)
  | inr (old, e) ↦ elim (Bool-cases (old.removed_ns == 0)) [
    | inl live ↦
        let self = lookup-insert_self id (record old { removed_ns = first }) r.entries in
        rw (on_removed_lem r id first e ((==_iff _ _).0 live))
          (on_removed_idle _ id second (λ now k. ground arith))
    | inr gone ↦ idle_twice r id first second (λ now k. ground arith)
  ]
]
