-- ===== src/Text/Laws.antt =====
-- Equality and order of texts.
use slurm_tracer.Common.{◌≡◌, refl, ◌≢◌, ◌↔◌, true, false, ◌++◌, [], ◌∷◌, arith, length, drop}
use slurm_tracer.Text.{Bytes, is_empty, same, before, starts_with}

pub same_refl : (s : Bytes) → same s s ≡ true
unfolding same
same_refl [] = refl
same_refl (c ∷ s) = ground (arith, same_refl s)

same_sound : (s t : Bytes) → same s t ≡ true → s ≡ t
unfolding same
same_sound [] [] h = refl
same_sound [] (d ∷ t) h = cc
same_sound (c ∷ s) [] h = cc
same_sound (c ∷ s) (d ∷ t) h = ground (arith, same_sound s t)

pub same_iff : (s t : Bytes) → (same s t ≡ true) ↔ (s ≡ t)
same_iff s t = (same_sound s t, λ e. rw e (same_refl t))

pub before_irrefl : (s : Bytes) → before s s ≡ false
unfolding before
before_irrefl [] = refl
before_irrefl (c ∷ s) = ground (arith, before_irrefl s)

pub before_trans : (s t u : Bytes) → before s t ≡ true → before t u ≡ true → before s u ≡ true
unfolding before
before_trans [] [] u h k = cc
before_trans [] (d ∷ t) [] h k = cc
before_trans [] (d ∷ t) (e ∷ u) h k = refl
before_trans (c ∷ s) [] u h k = cc
before_trans (c ∷ s) (d ∷ t) [] h k = cc
before_trans (c ∷ s) (d ∷ t) (e ∷ u) h k = ground (arith, before_trans s t u)

pub before_total : (s t : Bytes) → same s t ≡ false → before s t ≡ false → before t s ≡ true
unfolding before same
before_total [] [] h k = cc
before_total [] (d ∷ t) h k = cc
before_total (c ∷ s) [] h k = refl
before_total (c ∷ s) (d ∷ t) h k = ground (arith, before_total s t)

pub starts_with-append : (p s : Bytes) → starts_with p (p ++ s) ≡ true
unfolding starts_with
starts_with-append [] s = refl
starts_with-append (c ∷ p) s = ground (arith, starts_with-append p s)

-- A text that starts with `p` is `p` and what follows it.
pub starts_with_sound : (p s : Bytes) → starts_with p s ≡ true → s ≡ p ++ drop (length p) s
unfolding starts_with
starts_with_sound [] s h = refl
starts_with_sound (c ∷ p) [] h = cc
starts_with_sound (c ∷ p) (d ∷ s) h = ground (arith, starts_with_sound p s)

pub is_empty_of_ne : (s : Bytes) → s ≢ [] → is_empty s ≡ false
is_empty_of_ne [] h = absurd (h refl)
is_empty_of_ne (c ∷ s) h = refl
