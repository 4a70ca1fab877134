-- ===== src/Sinks/Http/Client/Framing.antt =====
-- A response is read to its end, however the network cuts it into pieces.
use mathlib.Core.Option.{some-injective}
use slurm_tracer.Common.{
  ℕ, zero, suc, ◌+◌, ◌-◌, ◌≤◌, ◌≡◌, ◌≢◌, refl, ap, ◌∙◌, sym, true, false, List, [], ◌∷◌, ◌++◌,
  append_assoc, append-nil, Option, none, some, arith, length, length-append, take, ltb, inl, inr,
  Option-cases, lt→ltb,
}
use slurm_tracer.Text.{Bytes}
use slurm_tracer.Text.Scan.{find_text, find_text_within, find_text-append, find_text_prefix}
use slurm_tracer.Sinks.Http.Socket.{
  Received, got, ended, crlf, blank_line, max_head, Head, headed, read_head, drain,
}
use slurm_tracer.Sinks.Http.Response.{Verdict, judge_head}
use slurm_tracer.Sinks.Http.Client.{keep_unless, finish, await}

-- The pieces in which a text arrives, each of a byte at least.
abbrev pub Piece : Type 0
Piece = ℕ × Bytes

abbrev pub joined : List Piece → Bytes
joined [] = []
joined ((c, s) ∷ ps) = (c ∷ s) ++ joined ps

-- The results of `recv` that bring the pieces, with those that come behind them.
abbrev pub arriving : List Piece → List Received → List Received
arriving [] later = later
arriving ((c, s) ∷ ps) later = got c s ∷ arriving ps later

take-append_left : (n : ℕ) (s t : Bytes) → n ≤ length s → take n (s ++ t) ≡ take n s
take-append_left zero s t h = refl
take-append_left (suc n) [] t h = absurd (omega arith)
take-append_left (suc n) (c ∷ s) t h = ap (λ x. c ∷ x) (take-append_left n s t (omega arith))

-- The verdict on what has been read is the one on the whole response.
judge_head-append :
    (wild : Option ℕ) (buf rest : Bytes) (i : ℕ)
    → find_text blank_line buf ≡ some i
    → judge_head wild (buf ++ rest) i ≡ judge_head wild buf i
unfolding judge_head
judge_head-append wild buf rest i h =
    let (j, found, below) = find_text_prefix crlf crlf buf i h in
    let inside = find_text_within blank_line buf i h in
    let line_inside = find_text_within crlf buf j found in
    rw
      (
        found,
        find_text-append crlf buf rest j found,
        take-append_left i buf rest (omega arith),
        take-append_left j buf rest (omega arith),
      )
      refl

-- The pieces up to the end of the head are read, and those behind it are left.
data ReadsHead (full : Bytes) (i : ℕ) (later : List Received) : Option Head → Type 0 where
  reads :
      (buf : Bytes) (left : List Piece)
      → buf ++ joined left ≡ full
      → find_text blank_line buf ≡ some i
      → ReadsHead full i later (some (headed buf i (arriving left later)))

ReadsHead-inv :
    (full : Bytes) (i : ℕ) (later : List Received) (o : Option Head)
    → ReadsHead full i later o
    → (buf : Bytes) × (left : List Piece) × (o ≡ some (headed buf i (arriving left later)))
      × (buf ++ joined left ≡ full)
      × (find_text blank_line buf ≡ some i)
ReadsHead-inv full i later o (reads buf left e f) = (buf, left, refl, e, f)

found_ne_missing : (p s : Bytes) (i : ℕ) → find_text p s ≡ some i → find_text p s ≢ none
found_ne_missing p s i h k = cc

below_ltb : (a b : ℕ) → a ≤ b → ltb b a ≡ false
below_ltb a b h = ground arith

shorter : (s t full : Bytes) (e : s ++ t ≡ full) {n : ℕ} → length full ≤ n → length s ≤ n
shorter s t full e h = omega (arith, length-append s t, ap length e, h)

read_head-ReadsHead :
    (full : Bytes) (i : ℕ) (later : List Received) (buf : Bytes) (ps : List Piece)
    → find_text blank_line full ≡ some i
    → length full ≤ max_head
    → buf ++ joined ps ≡ full
    → find_text blank_line buf ≡ none
    → ReadsHead full i later (read_head buf (arriving ps later))
unfolding read_head
read_head-ReadsHead full i later buf [] h short e unseen =
    let all : buf ≡ full = sym (append-nil buf) ∙ e in
    absurd (found_ne_missing blank_line buf i (ap (find_text blank_line) all ∙ h) unseen)
read_head-ReadsHead full i later buf ((c, s) ∷ ps) h short e unseen =
    let buf' = buf ++ (c ∷ s) in
    let e' : buf' ++ joined ps ≡ full = append_assoc buf (c ∷ s) (joined ps) ∙ e in
    elim (Option-cases (find_text blank_line buf')) [
      | inl f ↦
          let fits : ltb max_head (length buf') ≡ false =
            below_ltb (length buf') max_head (shorter buf' (joined ps) full e' short) in
          rw (f, fits, read_head) (read_head-ReadsHead full i later buf' ps h short e' f)
      | inr (j, f) ↦
          let at : j ≡ i = some-injective j i (
            sym (find_text-append blank_line buf' (joined ps) j f)
            ∙ ap (find_text blank_line) e'
            ∙ h) in
          rw (f, at, read_head) (reads buf' ps e' (f ∙ ap some at))
    ]

drain_done : (n : ℕ) (rs : List Received) → drain n n rs ≡ some (false, rs)
unfolding drain
drain_done n [] = ground arith
drain_done n (ended ∷ rs) = ground arith
drain_done n (got c s ∷ rs) = ground arith

-- The body is read to its end, and nothing behind it.
drain-arriving :
    (have want : ℕ) (ps : List Piece) (later : List Received)
    → have + length (joined ps) ≡ want
    → drain have want (arriving ps later) ≡ some (false, later)
unfolding drain
drain-arriving have want [] later h =
    let done : want ≡ have = omega arith in rw done (drain_done have later)
drain-arriving have want ((c, s) ∷ ps) later h =
    let after = have + length (c ∷ s) in
    let sum = length-append (c ∷ s) (joined ps) in
    let ih = drain-arriving after want ps later (omega (arith, h, sum)) in
    let more : ltb have want ≡ true = lt→ltb have want (omega (arith, h, sum)) in rw (more) ih

finish-arriving :
    (v : Verdict) (have want fd : ℕ) (out : Bytes) (left : List Piece) (later : List Received)
    → v.want ≡ some want
    → have + length (joined left) ≡ want
    → finish v have fd out (arriving left later)
      ≡ some (record { ok = v.ok; fd = keep_unless v.close fd; out = out; recvs = later })
unfolding finish
finish-arriving v have want fd out left later asked body =
    rw (asked, drain-arriving have want left later body, finish) refl

-- What the end of a post comes to on a head that is read so.
finish_head :
    (wild : Option ℕ) (fd : ℕ) (out : Bytes) (later : List Received) (full : Bytes) (i want : ℕ)
    (buf : Bytes) (left : List Piece)
    → buf ++ joined left ≡ full
    → find_text blank_line buf ≡ some i
    → (judge_head wild full i).want ≡ some want
    → length full ≡ i + 4 + want
    → let v = judge_head wild full i in
      finish (judge_head wild buf i) (length buf - (i + 4)) fd out (arriving left later)
      ≡ some (record { ok = v.ok; fd = keep_unless v.close fd; out = out; recvs = later })
finish_head wild fd out later full i want buf left e h asked sized =
    let same_verdict : judge_head wild buf i ≡ judge_head wild full i =
      sym (judge_head-append wild buf (joined left) i h) ∙ ap (λ x. judge_head wild x i) e in
    let inside = find_text_within blank_line buf i h in
    let parts = length-append buf (joined left) in
    let body : length buf - (i + 4) + length (joined left) ≡ want =
      omega (arith, inside, parts, ap length e, sized) in
    ap (λ v. finish v (length buf - (i + 4)) fd out (arriving left later)) same_verdict
    ∙ finish-arriving (judge_head wild full i) (length buf - (i + 4)) want fd out left later asked
        body

-- A response arrives in any pieces, with its head within 64 KiB altogether and, where a length of the body
-- is given and the head is not chunked, with a body of that length: the post reads all of it and nothing
-- that comes behind it, so that a kept connection is in step for the next post. It succeeds by the status
-- of the head, and closes the connection exactly where the head says so.
pub await-arriving :
    (wild : Option ℕ) (fd : ℕ) (out : Bytes) (ps : List Piece) (later : List Received)
    (full : Bytes) (header_end want : ℕ)
    → joined ps ≡ full
    → find_text blank_line full ≡ some header_end
    → length full ≤ max_head
    → (judge_head wild full header_end).want ≡ some want
    → length full ≡ header_end + 4 + want
    → let v = judge_head wild full header_end in
      await wild fd out (arriving ps later)
      ≡ some (record { ok = v.ok; fd = keep_unless v.close fd; out = out; recvs = later })
unfolding await find_text
await-arriving wild fd out ps later full header_end want e h short asked sized =
    let (buf, left, reads_to, parts, found) =
      ReadsHead-inv full header_end later (read_head [] (arriving ps later))
        (read_head-ReadsHead full header_end later [] ps h short e refl) in
    rw (reads_to, await)
      (finish_head wild fd out later full header_end want buf left parts found asked sized)
