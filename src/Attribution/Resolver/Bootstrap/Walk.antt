-- ===== src/Attribution/Resolver/Bootstrap/Walk.antt =====
-- The walk over the cgroup tree ends, and finds every directory.
use mathlib.Core.List.{reverse, reverse-cons}
use mathlib.Core.Option.{some-injective}
use slurm_tracer.Common.{
  ℕ, zero, suc, ◌+◌, ◌<◌, ◌≡◌, refl, sym, ◌∙◌, ap, subst, inl, inr, true, false, List, [], ◌∷◌,
  ◌++◌, some, arith, if◌then◌else◌, Option-cases, Bool-cases, ◌==◌, ==_iff,
}
use slurm_tracer.Text.{Bytes, same}
use slurm_tracer.Dict.{nat_key, lookup, insert}
use slurm_tracer.Dict.Laws.{lookup-insert, lookup-insert_self}
use slurm_tracer.Attribution.Files.{FileSystem, Stat, is_dir}
use slurm_tracer.Attribution.Path.{Attribution, parse_cgroup_path}
use slurm_tracer.Attribution.Resolver.{CgroupResolver, fresh_entry}
use slurm_tracer.Attribution.Resolver.Bootstrap.Inside.{
  In, In-append_left, In-append_right, In-reverse, Reach, here, down, AllReached, push-AllReached,
  root-AllReached,
}
use slurm_tracer.Attribution.Resolver.Bootstrap.{
  created_from_ctime, add_dir, children_of, visit, walk, scan, start, count_scan,
}

-- A finite tree: each directory weighs more than all that is pushed for it.
abbrev pub total : (Bytes → ℕ) → List Bytes → ℕ
total weight [] = 0
total weight (p ∷ ps) = weight p + total weight ps

abbrev pub IsFinite : FileSystem → (Bytes → ℕ) → Type 0
IsFinite fs weight = (dir : Bytes) → total weight (children_of fs dir) < weight dir

total-append : (w : Bytes → ℕ) (xs ys : List Bytes) → total w (xs ++ ys) ≡ total w xs + total w ys
total-append w [] ys = omega arith
total-append w (x ∷ xs) ys = omega (arith, total-append w xs ys)

total-reverse : (w : Bytes → ℕ) (xs : List Bytes) → total w (reverse xs) ≡ total w xs
total-reverse w [] = refl
total-reverse w (x ∷ xs) = omega (
  arith,
  ap (total w) (reverse-cons x xs),
  total-append w (reverse xs) (x ∷ []),
  total-reverse w xs,
)

pub walk_ends :
    (w : Bytes → ℕ) (fuel : ℕ) (fs : FileSystem) (offset : ℕ) (r : CgroupResolver)
    (stack : List Bytes)
    → IsFinite fs w
    → total w stack < fuel
    → (q : CgroupResolver) × (walk fuel fs offset r stack ≡ some q)
unfolding walk
walk_ends w zero fs offset r stack finite h = elim h [ ]
walk_ends w (suc fuel) fs offset r [] finite h = (r, refl)
walk_ends w (suc fuel) fs offset r (current ∷ stack) finite h =
    let below = finite current in
    walk_ends w fuel fs offset (visit fs offset r current)
      (reverse (children_of fs current) ++ stack) finite
      (omega (
        arith,
        total-append w (reverse (children_of fs current)) stack,
        total-reverse w (children_of fs current),
      ))

-- Of the directories that the root leads to, each by the one path that the walk gives it, two have different
-- inode numbers.
abbrev pub HasDistinctInodes : FileSystem → Bytes → Type 0
HasDistinctInodes fs root =
    (p p' : Bytes) (st st' : Stat)
    → Reach fs p root
    → Reach fs p' root
    → fs.stat p ≡ some st
    → fs.stat p' ≡ some st'
    → st.ino ≡ st'.ino
    → p ≡ p'

module _ (fs : FileSystem) (offset : ℕ) (root : Bytes) (distinct : HasDistinctInodes fs root) where
  -- If the directory is job work, then its inode number has the entry that the directory calls for.
  abbrev pub Known : Bytes → CgroupResolver → Type 0
  Known p r =
      (st : Stat) (attr : Attribution)
      → fs.stat p ≡ some st
      → parse_cgroup_path p ≡ some attr
      → lookup st.ino r.entries ≡ some (fresh_entry attr (created_from_ctime offset st))

  add_dir_cases {ℓ} :
      (P : CgroupResolver → Type ℓ) (cur : Bytes) (r : CgroupResolver)
      → P r
      → ((st : Stat) (attr : Attribution)
          → fs.stat cur ≡ some st
          → parse_cgroup_path cur ≡ some attr
          → P (record r {
            entries = insert st.ino (fresh_entry attr (created_from_ctime offset st)) r.entries;
          }))
      → P (add_dir fs offset r cur)
  unfolding add_dir
  add_dir_cases P cur r same grown = elim (Option-cases (fs.stat cur)) [
    | inl e ↦ rw (e, add_dir) same
    | inr (st, e) ↦ elim (Option-cases (parse_cgroup_path cur)) [
      | inl n ↦ rw (e, add_dir) (rw n same)
      | inr (attr, s) ↦ rw (e, add_dir) (rw s (grown st attr e s))
    ]
  ]

  add_dir-Known_self : (p : Bytes) (r : CgroupResolver) → Known p (add_dir fs offset r p)
  unfolding add_dir
  add_dir-Known_self p r st attr h k =
      ground (
        arith,
        lookup-insert_self st.ino (fresh_entry attr (created_from_ctime offset st)) r.entries,
      )

  same_entry :
      (p cur : Bytes) (st st' : Stat) (attr attr' : Attribution)
      → Reach fs p root
      → Reach fs cur root
      → fs.stat p ≡ some st
      → parse_cgroup_path p ≡ some attr
      → fs.stat cur ≡ some st'
      → parse_cgroup_path cur ≡ some attr'
      → st'.ino ≡ st.ino
      → fresh_entry attr' (created_from_ctime offset st')
        ≡ fresh_entry attr (created_from_ctime offset st)
  same_entry p cur st st' attr attr' rp rc h k h' k' e =
      let at_one : cur ≡ p = distinct cur p st' st rc rp h' h e in
      let one_stat : some st' ≡ some st = sym h' ∙ ap fs.stat at_one ∙ h in
      let one_attr : some attr' ≡ some attr = sym k' ∙ ap parse_cgroup_path at_one ∙ k in cc

  add_dir-Known :
      (p cur : Bytes) (r : CgroupResolver)
      → Reach fs p root
      → Reach fs cur root
      → Known p r
      → Known p (add_dir fs offset r cur)
  add_dir-Known p cur r rp rc known =
      add_dir_cases (Known p) cur r known λ st' attr' h' k' st attr h k.
        let found =
          lookup-insert st'.ino st.ino (fresh_entry attr' (created_from_ctime offset st'))
            r.entries in
        elim (Bool-cases (st'.ino == st.ino)) [
          | inl e ↦
              found
              ∙ rw (e, if◌then◌else◌)
                  (ap some (same_entry p cur st st' attr attr' rp rc h k h' k' ((==_iff _ _).0 e)))
          | inr e ↦ found ∙ rw (e, if◌then◌else◌) (known st attr h k)
        ]

  visit-Known :
      (p cur : Bytes) (r : CgroupResolver)
      → Reach fs p root
      → Reach fs cur root
      → Known p r
      → Known p (visit fs offset r cur)
  unfolding visit
  visit-Known p cur r rp rc known = elim (Bool-cases (same cur r.root)) [
    | inl e ↦ rw (e, visit) known
    | inr e ↦ rw (e, visit) (add_dir-Known p cur r rp rc known)
  ]

  visit-Known_self :
      (p : Bytes) (r : CgroupResolver) → same p r.root ≡ false → Known p (visit fs offset r p)
  unfolding visit
  visit-Known_self p r e = rw (e, visit) (add_dir-Known_self p r)

  visit-root : (cur : Bytes) (r : CgroupResolver) → (visit fs offset r cur).root ≡ r.root
  unfolding visit
  visit-root cur r = elim (Bool-cases (same cur r.root)) [
    | inl e ↦ rw (e, visit)
    | inr e ↦ rw (e, visit) (add_dir_cases (λ q. q.root ≡ r.root) cur r refl (λ _ _ _ _. refl))
  ]

  walk-Known :
      (fuel : ℕ) (p : Bytes) (r : CgroupResolver) (stack : List Bytes) (q : CgroupResolver)
      → walk fuel fs offset r stack ≡ some q
      → Reach fs p root
      → AllReached fs root stack
      → Known p r
      → Known p q
  unfolding walk
  walk-Known zero p r stack q h rp all known = cc
  walk-Known (suc fuel) p r [] q h rp all known = subst (Known p) (some-injective r q h) known
  walk-Known (suc fuel) p r (cur ∷ stack) q h rp all known =
      walk-Known fuel p (visit fs offset r cur) (reverse (children_of fs cur) ++ stack) q h rp
        (push-AllReached fs root cur stack all) (visit-Known p cur r rp (all cur (inl refl)) known)

  walk-finds :
      (fuel : ℕ) (p dir : Bytes) (r : CgroupResolver) (stack : List Bytes) (q : CgroupResolver)
      → walk fuel fs offset r stack ≡ some q
      → same p r.root ≡ false
      → Reach fs p root
      → AllReached fs root stack
      → Reach fs p dir
      → In dir stack
      → Known p q
  unfolding walk
  walk-finds zero p dir r stack q h ne rp all reach at = cc
  walk-finds (suc fuel) p dir r [] q h ne rp all reach at = absurd at
  walk-finds (suc fuel) p dir r (cur ∷ stack) q h ne rp all reach (inr at) =
      walk-finds fuel p dir (visit fs offset r cur) (reverse (children_of fs cur) ++ stack) q h
        (rw (visit-root cur r) ne) rp (push-AllReached fs root cur stack all) reach
        (In-append_right dir (reverse (children_of fs cur)) stack at)
  walk-finds (suc fuel) p dir r (cur ∷ stack) q h ne rp all here (inl e) =
      walk-Known fuel p (visit fs offset r cur) (reverse (children_of fs cur) ++ stack) q h rp
        (push-AllReached fs root cur stack all) (rw (← e) (visit-Known_self p r ne))
  walk-finds (suc fuel) p dir r (cur ∷ stack) q h ne rp all (down {child = child} below reach)
        (inl e) =
      walk-finds fuel p child (visit fs offset r cur) (reverse (children_of fs cur) ++ stack) q h
        (rw (visit-root cur r) ne) rp (push-AllReached fs root cur stack all) reach
        (In-append_left child (reverse (children_of fs cur)) stack
          (In-reverse child (children_of fs cur) (rw (← e) below)))

-- Over a finite tree in which the directories that the root leads to have distinct inode numbers, where the
-- root is a directory, the scan at start ends, given a round more than the root weighs, and succeeds; and then every job
-- directory below the root, at whatever depth, has its entry.
pub start_finds :
    (w : Bytes → ℕ) (fuel : ℕ) (fs : FileSystem) (offset : ℕ) (r : CgroupResolver)
    → IsFinite fs w
    → w r.root < fuel
    → HasDistinctInodes fs r.root
    → is_dir fs r.root ≡ true
    → (q : CgroupResolver) × (start fuel fs offset r ≡ some (q, true))
      × ((p : Bytes)
          → Reach fs p r.root
          → same p r.root ≡ false
          → (st : Stat) (attr : Attribution) → fs.stat p ≡ some st
          → parse_cgroup_path p ≡ some attr
          → lookup st.ino q.entries ≡ some (fresh_entry attr (created_from_ctime offset st)))
unfolding start scan
start_finds w fuel fs offset r finite h distinct dir =
    let (q, e) = walk_ends w fuel fs offset r (r.root ∷ []) finite (omega arith) in
    (
      count_scan q,
      rw (dir, e),
      λ p reach ne.
          walk-finds fs offset r.root distinct fuel p r.root r (r.root ∷ []) q e ne reach
            (root-AllReached fs r.root) reach (inl refl),
    )
