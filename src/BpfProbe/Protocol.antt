-- ===== src/BpfProbe/Protocol.antt =====
-- The protocol of libbpf that a probe's calls keep to.
use mathlib.Core.Option.{some-injective}
use slurm_tracer.Common.{
  ℕ, ◌≡◌, refl, sym, ◌∙◌, ap, inl, inr, List, [], ◌∷◌, ◌++◌, Option, none, some, ◌==◌, ==_iff,
  arith, if◌then◌else◌, Option-cases,
}
use slurm_tracer.BpfProbe.{
  Ops, OpCall, opened, loaded, attached, destroyed, BpfProbe, new_probe, open_skeleton, load,
  attach, detach,
}

-- One call, from the skeleton that is open, if one is: no second one is opened, and only the open one is
-- used and destroyed.
unfoldable pub allowed : Option ℕ → OpCall → Option (Option ℕ)
allowed none (opened s) = some (some s)
allowed (some t) (opened s) = none
allowed none (loaded s) = none
allowed (some t) (loaded s) = if t == s then some (some t) else none
allowed none (attached s) = none
allowed (some t) (attached s) = if t == s then some (some t) else none
allowed none (destroyed s) = none
allowed (some t) (destroyed s) = if t == s then some none else none

unfoldable pub protocol : Option ℕ → List OpCall → Option (Option ℕ)
unfolding allowed
protocol at [] = some at
protocol at (c ∷ cs) = elim (allowed at c) [ none ↦ none | some next ↦ protocol next cs ]

pub protocol-append :
    (at next : Option ℕ) (xs ys : List OpCall)
    → protocol at xs ≡ some next
    → protocol at (xs ++ ys) ≡ protocol next ys
unfolding protocol
protocol-append at next [] ys h = ap (λ o. protocol o ys) (some-injective at next h)
protocol-append at next (c ∷ xs) ys h = elim (Option-cases (allowed at c)) [
  | inl e ↦ absurd (ground (arith, e))
  | inr (mid, e) ↦ rw (e, protocol) (protocol-append mid next xs ys (rw (e, protocol) at h))
]

-- The states that a probe comes to, each with all calls so far. It is opened only while nothing is open.
pub data Reach : BpfProbe → List OpCall → Type 0 where
  starts : Reach new_probe []
  opens_it :
      {p : BpfProbe} {calls : List OpCall} (ops : Ops)
      → Reach p calls
      → p.skel ≡ none
      → Reach (open_skeleton ops p).probe (calls ++ (open_skeleton ops p).calls)
  loads_it :
      {p : BpfProbe} {calls : List OpCall} (ops : Ops)
      → Reach p calls
      → Reach (load ops p).probe (calls ++ (load ops p).calls)
  attaches_it :
      {p : BpfProbe} {calls : List OpCall} (ops : Ops)
      → Reach p calls
      → Reach (attach ops p).probe (calls ++ (attach ops p).calls)
  detaches_it :
      {p : BpfProbe} {calls : List OpCall}
      → Reach p calls
      → Reach (detach p).0 (calls ++ (detach p).1)

keeps :
    (s : ℕ)
    → (protocol (some s) (loaded s ∷ []) ≡ some (some s))
      × (protocol (some s) (attached s ∷ []) ≡ some (some s))
      × (protocol (some s) (destroyed s ∷ []) ≡ some none)
unfolding protocol allowed
keeps s =
    let same_one = (==_iff s s).1 refl in
    (ground (arith, same_one), ground (arith, same_one), ground (arith, same_one))

pub open_skeleton_lem :
    (ops : Ops) (p : BpfProbe)
    → p.skel ≡ none
    → protocol p.skel (open_skeleton ops p).calls ≡ some (open_skeleton ops p).probe.skel
unfolding open_skeleton protocol allowed
open_skeleton_lem ops p h = elim (Option-cases ops.opens) [
  | inl e ↦ rw (e, h, open_skeleton) refl
  | inr (s, e) ↦ rw (e, h, open_skeleton) refl
]

pub load_lem :
    (ops : Ops) (p : BpfProbe) → protocol p.skel (load ops p).calls ≡ some (load ops p).probe.skel
unfolding load protocol
load_lem ops p = elim (Option-cases p.skel) [
  | inl e ↦ rw (e, load) (ap some (sym e))
  | inr (s, e) ↦ rw (e, load) ((keeps s).0 ∙ ap some (sym e))
]

pub attach_lem :
    (ops : Ops) (p : BpfProbe)
    → protocol p.skel (attach ops p).calls ≡ some (attach ops p).probe.skel
unfolding attach protocol
attach_lem ops p = elim (Option-cases p.skel) [
  | inl e ↦ rw (e, attach) (ap some (sym e))
  | inr (s, e) ↦ rw (e, attach) ((keeps s).1 ∙ ap some (sym e))
]

pub detach_lem :
    (p : BpfProbe) → (protocol p.skel (detach p).1 ≡ some none) × ((detach p).0.skel ≡ none)
unfolding detach protocol
detach_lem p = elim (Option-cases p.skel) [
  | inl e ↦ rw (e, detach) (refl, e)
  | inr (s, e) ↦ rw (e, detach) ((keeps s).2, refl)
]

pub Reach-protocol :
    (p : BpfProbe) (calls : List OpCall) → Reach p calls → protocol none calls ≡ some p.skel
unfolding protocol
Reach-protocol p calls starts = refl
Reach-protocol p calls (opens_it {p = q} {calls = before} ops r h) =
    protocol-append none q.skel before (open_skeleton ops q).calls (Reach-protocol q before r)
    ∙ open_skeleton_lem ops q h
Reach-protocol p calls (loads_it {p = q} {calls = before} ops r) =
    protocol-append none q.skel before (load ops q).calls (Reach-protocol q before r)
    ∙ load_lem ops q
Reach-protocol p calls (attaches_it {p = q} {calls = before} ops r) =
    protocol-append none q.skel before (attach ops q).calls (Reach-protocol q before r)
    ∙ attach_lem ops q
Reach-protocol p calls (detaches_it {p = q} {calls = before} r) =
    let (closes, left) = detach_lem q in
    protocol-append none q.skel before (detach q).1 (Reach-protocol q before r)
    ∙ (closes ∙ ap some (sym left))

-- Through any calls of a probe's methods, in any order and whichever of them fail, of which `open` comes
-- only while nothing is open: the calls of libbpf keep to its protocol, which leaves open what the probe
-- holds, and the destructor's calls, after them, leave nothing open. So each skeleton that was opened is
-- destroyed exactly once, and is not used before it is opened or after it is destroyed.
pub destructor_closes :
    (p : BpfProbe) (calls : List OpCall)
    → Reach p calls
    → (protocol none calls ≡ some p.skel) × (protocol none (calls ++ (detach p).1) ≡ some none)
destructor_closes p calls r =
    let so_far = Reach-protocol p calls r in
    (so_far, protocol-append none p.skel calls (detach p).1 so_far ∙ (detach_lem p).0)
