-- ===== src/Sinks/Queue/Order.antt =====
-- What goes out keeps the order in which it was accepted.
use mathlib.Core.Option.{some-injective}
use slurm_tracer.Common.{
  ℕ, zero, suc, ◌≡◌, refl, ap, subst, ◌∙◌, sym, List, [], ◌∷◌, ◌++◌, append_assoc, some, drop, ◌<◌,
}
use slurm_tracer.Sinks.Queue.{
  Batch, QueueSink, Worker, waiting, busy, counting, finished, push_back, write, WorkerStep, takes,
  delivers, loses, counts, leaves, works, writes, stops, Reach, here, next,
}
use slurm_tracer.Sinks.Queue.Write.{IsEvicted, evict_lem}
use slurm_tracer.Sinks.Queue.Account.{Inv, Reach-Inv, written_by}

-- The first list is the second with batches left out.
pub data Sub : List Batch → List Batch → Type 0 where
  done : Sub [] []
  keep : {b : Batch} {xs ys : List Batch} → Sub xs ys → Sub (b ∷ xs) (b ∷ ys)
  skip : {b : Batch} {xs ys : List Batch} → Sub xs ys → Sub xs (b ∷ ys)

pub Sub-refl : (xs : List Batch) → Sub xs xs
Sub-refl [] = done
Sub-refl (x ∷ xs) = keep (Sub-refl xs)

pub Sub-trans : {xs ys zs : List Batch} → Sub xs ys → Sub ys zs → Sub xs zs
Sub-trans s done = s
Sub-trans (keep s) (keep t) = keep (Sub-trans s t)
Sub-trans (skip s) (keep t) = skip (Sub-trans s t)
Sub-trans s (skip t) = skip (Sub-trans s t)

pub Sub-append : (a : List Batch) {xs ys : List Batch} → Sub xs ys → Sub (a ++ xs) (a ++ ys)
Sub-append [] s = s
Sub-append (b ∷ a) s = keep (Sub-append a s)

Sub-snoc : {xs ys : List Batch} (b : Batch) → Sub xs ys → Sub (xs ++ b ∷ []) (ys ++ b ∷ [])
Sub-snoc b done = keep done
Sub-snoc b (keep s) = keep (Sub-snoc b s)
Sub-snoc b (skip s) = skip (Sub-snoc b s)

Sub-drop : (n : ℕ) (xs : List Batch) → Sub (drop n xs) xs
Sub-drop zero xs = Sub-refl xs
Sub-drop (suc n) [] = done
Sub-drop (suc n) (x ∷ xs) = skip (Sub-drop n xs)

abbrev pub holding : Worker → List Batch
holding waiting = []
holding (busy b) = b ∷ []
holding counting = []
holding finished = []

-- What is out, what the worker holds, and what waits, in this order.
abbrev pub line : QueueSink → List Batch
line s = s.sent ++ (holding s.worker ++ s.queue)

abbrev pub IsOrdered : QueueSink → Type 0
IsOrdered s = Sub (line s) s.accepted

pub line_at :
    (s : QueueSink) {w : Worker} {q : List Batch}
    → s.worker ≡ w
    → s.queue ≡ q
    → line s ≡ s.sent ++ (holding w ++ q)
line_at s {w} h k =
    ap (λ u. s.sent ++ (holding u ++ s.queue)) h ∙ ap (λ u. s.sent ++ (holding w ++ u)) k

WorkerStep-IsOrdered : {s t : QueueSink} → WorkerStep s t → IsOrdered s → IsOrdered t
WorkerStep-IsOrdered {s} (takes b rest w q e) i =
    rw e (subst (λ l. Sub l s.accepted) (line_at s w q) i)
WorkerStep-IsOrdered {s} (delivers b w e) i = rw e (
    subst (λ l. Sub l s.accepted) (line_at s w refl ∙ sym (append_assoc s.sent (b ∷ []) s.queue)) i)
WorkerStep-IsOrdered {s} (loses b w e) i = rw e (
    Sub-trans
      (subst (Sub (s.sent ++ s.queue)) (sym (line_at s w refl))
        (Sub-append s.sent (skip (Sub-refl s.queue))))
      i)
WorkerStep-IsOrdered {s} (counts w e) i = rw e (subst (λ l. Sub l s.accepted) (line_at s w refl) i)
WorkerStep-IsOrdered {s} (leaves w q h e) i =
    rw e (subst (λ l. Sub l s.accepted) (line_at s w refl) i)

evicted-IsOrdered :
    {n : ℕ} {s u : QueueSink} → IsEvicted n s.queue s u → IsOrdered s → Sub (line u) s.accepted
evicted-IsOrdered {n} {s} {u} v i =
    let same : line u ≡ s.sent ++ (holding s.worker ++ drop n s.queue) =
      line_at u v.worker v.queue ∙ ap (λ a. a ++ (holding s.worker ++ drop n s.queue)) v.sent in
    subst (λ l. Sub l s.accepted) (sym same)
      (Sub-trans (Sub-append s.sent (Sub-append (holding s.worker) (Sub-drop n s.queue))) i)

push_back-IsOrdered : (u : QueueSink) (b : Batch) → IsOrdered u → IsOrdered (push_back b u)
push_back-IsOrdered u b i =
    subst (λ l. Sub l (u.accepted ++ b ∷ []))
      (append_assoc u.sent (holding u.worker ++ u.queue) (b ∷ [])
        ∙ ap (λ l. u.sent ++ l) (append_assoc (holding u.worker) u.queue (b ∷ [])))
      (Sub-snoc b i)

write-IsOrdered :
    (s t : QueueSink) (b : Batch)
    → write s b ≡ some t
    → 0 < s.max_queued
    → IsOrdered s
    → IsOrdered t
unfolding write
write-IsOrdered s t [] e room i = subst IsOrdered (some-injective s t e) i
write-IsOrdered s t (r ∷ rs) e room i =
    let (u, evicted, v) = evict_lem s.queue s refl room in
    let at : push_back (r ∷ rs) u ≡ t =
      some-injective _ _ (sym (ap (written_by r rs) evicted) ∙ e) in
    subst IsOrdered at (
      push_back-IsOrdered u (r ∷ rs)
        (subst (Sub (line u)) (sym v.accepted) (evicted-IsOrdered v i)))

-- Kept by every interleaving, from a state whose counts agree: the batches that are out, then the one
-- in the worker's hands, then those that wait are the accepted batches with some left out, none
-- repeated and none out of order.
pub Reach-IsOrdered : (s t : QueueSink) → Inv s → IsOrdered s → Reach s t → IsOrdered t
Reach-IsOrdered s t v i here = i
Reach-IsOrdered s t v i (next {t = u} r (works w)) =
    WorkerStep-IsOrdered w (Reach-IsOrdered s u v i r)
Reach-IsOrdered s t v i (next {t = u} r (writes b running small e)) =
    write-IsOrdered u t b e (Reach-Inv s u v r).room (Reach-IsOrdered s u v i r)
Reach-IsOrdered s t v i (next {t = u} r (stops e)) = rw e (Reach-IsOrdered s u v i r)
