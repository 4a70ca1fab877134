-- ===== src/Attribution/Path/Split.antt =====
-- How a path falls into segments.
use slurm_tracer.Common.{
  ℕ, zero, suc, ◌+◌, ◌≤◌, ◌≡◌, ◌≢◌, refl, ap, sym, ◌∙◌, inl, inr, List, [], ◌∷◌, ◌++◌, append_assoc,
  arith, length, length-append, lt→ltb, ltb, if◌then◌else◌, drop, take, take-append,
}
use slurm_tracer.Text.{Bytes}
use slurm_tracer.Text.Find.{Lacks, find_of_Lacks, find-append, cut}
use slurm_tracer.Attribution.Path.{segment_end, split_loop, split_path}

-- An empty segment is dropped.
abbrev pub keep : Bytes → List Bytes → List Bytes
keep [] rest = rest
keep (c ∷ s) rest = (c ∷ s) ∷ rest

keep-append : (a : Bytes) (xs ys : List Bytes) → keep a (xs ++ ys) ≡ keep a xs ++ ys
keep-append [] xs ys = refl
keep-append (c ∷ s) xs ys = refl

split_loop-nil : (fuel : ℕ) → split_loop fuel [] ≡ []
unfolding split_loop
split_loop-nil zero = refl
split_loop-nil (suc fuel) = refl

take-length : (s : Bytes) → take (length s) s ≡ s
take-length [] = refl
take-length (c ∷ s) = ap (◌∷◌ c) (take-length s)

drop-length : (s : Bytes) → drop (suc (length s)) s ≡ []
drop-length [] = refl
drop-length (c ∷ s) = drop-length s

drop_past : (b : ℕ) (s t : Bytes) → drop (suc (length s)) (s ++ b ∷ t) ≡ t
drop_past b [] t = refl
drop_past b (c ∷ s) t = drop_past b s t

split_loop_step :
    (fuel end c : ℕ) (s : Bytes)
    → segment_end (c ∷ s) ≡ end
    → split_loop (suc fuel) (c ∷ s) ≡ (
        if ltb 0 end
        then take end (c ∷ s) ∷ split_loop fuel (drop (suc end) (c ∷ s))
        else split_loop fuel (drop (suc end) (c ∷ s)))
unfolding split_loop
split_loop_step fuel end c s e = rw (← e)

segment_end-append : (a r : Bytes) → Lacks b'/' a → segment_end (a ++ b'/' ∷ r) ≡ length a
segment_end-append a r h = rw (find-append b'/' a r h, segment_end)

segment_end_of_Lacks : (a : Bytes) → Lacks b'/' a → segment_end a ≡ length a
segment_end_of_Lacks a h = rw (find_of_Lacks b'/' a h, segment_end)

split_loop_cut :
    (fuel : ℕ) (a r : Bytes)
    → Lacks b'/' a
    → split_loop (suc fuel) (a ++ b'/' ∷ r) ≡ keep a (split_loop fuel r)
split_loop_cut fuel [] r h = split_loop_step fuel 0 b'/' r (segment_end-append [] r h)
split_loop_cut fuel (c ∷ a) r h =
    split_loop_step fuel (suc (length a)) c (a ++ b'/' ∷ r) (segment_end-append (c ∷ a) r h)
    ∙ rw (lt→ltb 0 (suc (length a)) (omega arith), take-append a, drop_past b'/' a r)

split_loop_last : (fuel : ℕ) (a : Bytes) → Lacks b'/' a → split_loop (suc fuel) a ≡ keep a []
split_loop_last fuel [] h = split_loop-nil (suc fuel)
split_loop_last fuel (c ∷ a) h =
    split_loop_step fuel (suc (length a)) c a (segment_end_of_Lacks (c ∷ a) h)
    ∙ rw (lt→ltb 0 (suc (length a)) (omega arith), take-length a, drop-length a, split_loop-nil)

-- The fuel that is given suffices: any more gives the same segments.
split_loop_fuel :
    (f g : ℕ) (s : Bytes) → length s ≤ f → length s ≤ g → split_loop f s ≡ split_loop g s
split_loop_fuel zero g [] h k = split_loop-nil zero ∙ sym (split_loop-nil g)
split_loop_fuel zero g (c ∷ s) h k = absurd (omega arith)
split_loop_fuel (suc f) zero [] h k = split_loop-nil (suc f) ∙ sym (split_loop-nil zero)
split_loop_fuel (suc f) zero (c ∷ s) h k = absurd (omega arith)
split_loop_fuel (suc f) (suc g) s h k = elim (cut b'/' s) [
  | inl l ↦ split_loop_last f s l ∙ sym (split_loop_last g s l)
  | inr (a, r, e, l) ↦
      let size = ap length e ∙ length-append a (b'/' ∷ r) in
      rw e (
        split_loop_cut f a r l
        ∙ ap (keep a) (split_loop_fuel f g r (omega arith) (omega arith))
        ∙ sym (split_loop_cut g a r l))
]

split_path_cut : (a r : Bytes) → Lacks b'/' a → split_path (a ++ b'/' ∷ r) ≡ keep a (split_path r)
unfolding split_path
split_path_cut a r h =
    let size = length-append a (b'/' ∷ r) in
    split_loop_fuel _ (suc (length r + length a)) (a ++ b'/' ∷ r) (omega arith) (omega arith)
    ∙ split_loop_cut (length r + length a) a r h
    ∙ ap (keep a) (split_loop_fuel (length r + length a) (length r) r (omega arith) (omega arith))

split_path_last : (a : Bytes) → Lacks b'/' a → split_path a ≡ keep a []
unfolding split_path
split_path_last a h =
    split_loop_fuel (length a) (suc (length a)) a (omega arith) (omega arith)
    ∙ split_loop_last (length a) a h

split_path-append_below :
    (n : ℕ) (s t : Bytes) → length s ≤ n → split_path (s ++ b'/' ∷ t) ≡ split_path s ++ split_path t
split_path-append_below zero [] t h = split_path_cut [] t tt ∙ rw (split_path_last [] tt)
split_path-append_below zero (c ∷ s) t h = absurd (omega arith)
split_path-append_below (suc n) s t h = elim (cut b'/' s) [
  | inl l ↦ split_path_cut s t l ∙ rw (split_path_last s l) (keep-append s [] (split_path t))
  | inr (a, r, e, l) ↦
      let size = ap length e ∙ length-append a (b'/' ∷ r) in
      rw (e, append_assoc, split_path_cut a r l)
        (split_path_cut a (r ++ b'/' ∷ t) l
          ∙ ap (keep a) (split_path-append_below n r t (omega arith))
          ∙ keep-append a (split_path r) (split_path t))
]

-- The segments of two paths joined by a slash are those of the one and then those of the other.
pub split_path-append : (s t : Bytes) → split_path (s ++ b'/' ∷ t) ≡ split_path s ++ split_path t
split_path-append s t = split_path-append_below (length s) s t (omega arith)

pub split_path_of_Lacks : (a : Bytes) → Lacks b'/' a → a ≢ [] → split_path a ≡ a ∷ []
split_path_of_Lacks [] h k = absurd (k refl)
split_path_of_Lacks (c ∷ a) h k = split_path_last (c ∷ a) h
