-- ===== src/Attribution/Resolver/Bootstrap/Inside.antt =====
-- The directories that the walk over the cgroup tree comes to.
use mathlib.Core.List.{reverse, reverse-cons}
use slurm_tracer.Common.{◌≡◌, refl, sym, subst, ◌⊎◌, inl, inr, List, [], ◌∷◌, ◌++◌}
use slurm_tracer.Text.{Bytes}
use slurm_tracer.Attribution.Files.{FileSystem}
use slurm_tracer.Attribution.Resolver.Bootstrap.{children_of}

abbrev pub In : Bytes → List Bytes → Type 0
In p [] = ⊥
In p (x ∷ xs) = (p ≡ x) ⊎ In p xs

pub In-append_left : (p : Bytes) (xs ys : List Bytes) → In p xs → In p (xs ++ ys)
In-append_left p [] ys h = absurd h
In-append_left p (x ∷ xs) ys (inl e) = inl e
In-append_left p (x ∷ xs) ys (inr h) = inr (In-append_left p xs ys h)

pub In-append_right : (p : Bytes) (xs ys : List Bytes) → In p ys → In p (xs ++ ys)
In-append_right p [] ys h = h
In-append_right p (x ∷ xs) ys h = inr (In-append_right p xs ys h)

pub In-reverse : (p : Bytes) (xs : List Bytes) → In p xs → In p (reverse xs)
In-reverse p [] h = absurd h
In-reverse p (x ∷ xs) (inl e) =
    rw (reverse-cons x xs) (In-append_right p (reverse xs) (x ∷ []) (inl e))
In-reverse p (x ∷ xs) (inr h) =
    rw (reverse-cons x xs) (In-append_left p (reverse xs) (x ∷ []) (In-reverse p xs h))

-- Where readdir leads from a directory, at any depth.
pub data Reach (fs : FileSystem) (p : Bytes) : Bytes → Type 0 where
  here : Reach fs p p
  down : {dir child : Bytes} → In child (children_of fs dir) → Reach fs p child → Reach fs p dir

In-append-cases : (p : Bytes) (xs ys : List Bytes) → In p (xs ++ ys) → In p xs ⊎ In p ys
In-append-cases p [] ys h = inr h
In-append-cases p (x ∷ xs) ys (inl e) = inl (inl e)
In-append-cases p (x ∷ xs) ys (inr h) = elim (In-append-cases p xs ys h) [
  | inl k ↦ inl (inr k)
  | inr k ↦ inr k
]

In-unreverse : (p : Bytes) (xs : List Bytes) → In p (reverse xs) → In p xs
In-unreverse p [] h = h
In-unreverse p (x ∷ xs) h =
    elim (In-append-cases p (reverse xs) (x ∷ []) (subst (In p) (reverse-cons x xs) h)) [
      | inl k ↦ inr (In-unreverse p xs k)
      | inr (inl e) ↦ inl e
      | inr (inr k) ↦ absurd k
    ]

-- What lies in a directory that is reached is reached.
Reach-snoc :
    (fs : FileSystem) (dir child root : Bytes)
    → Reach fs dir root
    → In child (children_of fs dir)
    → Reach fs child root
Reach-snoc fs dir child root here h = down h here
Reach-snoc fs dir child root (down {child = mid} below r) h =
    down below (Reach-snoc fs dir child mid r h)

-- All paths of a stack are reached.
abbrev pub AllReached : FileSystem → Bytes → List Bytes → Type 0
AllReached fs root stack = (x : Bytes) → In x stack → Reach fs x root

pub push-AllReached :
    (fs : FileSystem) (root cur : Bytes) (stack : List Bytes)
    → AllReached fs root (cur ∷ stack)
    → AllReached fs root (reverse (children_of fs cur) ++ stack)
push-AllReached fs root cur stack all x h =
    elim (In-append-cases x (reverse (children_of fs cur)) stack h) [
      | inl k ↦
          Reach-snoc fs cur x root (all cur (inl refl)) (In-unreverse x (children_of fs cur) k)
      | inr k ↦ all x (inr k)
    ]

pub root-AllReached : (fs : FileSystem) (root : Bytes) → AllReached fs root (root ∷ [])
root-AllReached fs root x (inl e) = subst (λ y. Reach fs y root) (sym e) here
root-AllReached fs root x (inr k) = absurd k
