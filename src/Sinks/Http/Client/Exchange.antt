-- ===== src/Sinks/Http/Client/Exchange.antt =====
-- A post over a connection that works.
use slurm_tracer.Common.{
  ℕ, zero, suc, ◌+◌, ◌≤◌, ◌≡◌, ◌≢◌, refl, ap, ◌∙◌, sym, true, List, [], ◌∷◌, ◌++◌, append-nil,
  Option, some, arith, length, take, drop, All,
}
use slurm_tracer.Text.{Bytes}
use slurm_tracer.Text.Scan.{find_text}
use slurm_tracer.Sinks.Http.Create.{Options}
use slurm_tracer.Sinks.Http.Socket.{
  Net, Sent, sent, interrupted, failed, sigpipe, Received, Wrote, write_all, ensure_connected,
  blank_line, max_head,
}
use slurm_tracer.Sinks.Http.Response.{judge_head}
use slurm_tracer.Sinks.Http.Client.{request, keep_unless, post}
use slurm_tracer.Sinks.Http.Client.Framing.{Piece, joined, arriving, await-arriving}
use slurm_tracer.Sinks.Http.Client.Delivery.{write_all-IsSent}

-- How many bytes the results of `send` take together, as long as the process lives.
abbrev pub taken : List Sent → ℕ
taken [] = 0
taken (sent n ∷ rs) = suc n + taken rs
taken (interrupted ∷ rs) = taken rs
taken (failed ∷ rs) = taken rs
taken (sigpipe ∷ rs) = 0

length-drop_below : (n k : ℕ) (s : Bytes) → length s ≤ n + k → length (drop n s) ≤ k
length-drop_below zero k s h = omega (arith, h)
length-drop_below (suc n) k [] h = omega arith
length-drop_below (suc n) k (c ∷ s) h = length-drop_below n k s (omega (arith, h))

-- The loop ends, and succeeds, on results that take enough and none of which is an error.
write_all_ends :
    (rs : List Sent) (bytes : Bytes)
    → All (λ r. r ≢ failed) rs
    → length bytes ≤ taken rs
    → (w : Wrote) × (write_all rs bytes ≡ some w) × (w.ok ≡ true)
unfolding write_all
write_all_ends rs [] fine enough = (record { ok = true; out = []; rest = rs }, refl, refl)
write_all_ends [] (b ∷ bs) fine enough = absurd (omega arith)
write_all_ends (sent n ∷ rs) (b ∷ bs) fine enough =
    let behind = drop (suc n) (b ∷ bs) in
    let small = length-drop_below (suc n) (taken rs) (b ∷ bs) enough in
    let (w, e, ok) = write_all_ends rs behind fine.1 small in
    (record { ok = w.ok; out = take (suc n) (b ∷ bs) ++ w.out; rest = w.rest }, rw (e) refl, ok)
write_all_ends (interrupted ∷ rs) (b ∷ bs) fine enough = write_all_ends rs (b ∷ bs) fine.1 enough
write_all_ends (sigpipe ∷ rs) (b ∷ bs) fine enough = absurd (omega (arith, enough))
write_all_ends (failed ∷ rs) (b ∷ bs) fine enough = absurd (fine.0 refl)

-- A post returns, over a connection on which `send` takes the request in any portions, interrupted or not,
-- and the response arrives in any pieces: within 64 KiB, and with a body of the length that its head gives.
-- The whole request is sent, once; the post succeeds by the status of the head; and of what `recv` brings
-- exactly the response is read, so that a connection that is kept is in step for the next post.
pub post-arriving :
    (wild : Option ℕ) (opt : Options) (net : Net) (fd : ℕ) (body : Bytes) (ps : List Piece)
    (later : List Received) (full : Bytes) (header_end want : ℕ)
    → All (λ r. r ≢ failed) net.sends
    → length (request opt body) ≤ taken net.sends
    → net.recvs ≡ arriving ps later
    → joined ps ≡ full
    → find_text blank_line full ≡ some header_end
    → length full ≤ max_head
    → (judge_head wild full header_end).want ≡ some want
    → length full ≡ header_end + 4 + want
    → let v = judge_head wild full header_end in
      post wild opt net (some fd) body
      ≡ some
          (record { ok = v.ok; fd = keep_unless v.close fd; out = request opt body; recvs = later })
unfolding post ensure_connected
post-arriving wild opt net fd body ps later full header_end want fine enough arrives e h short asked
      sized =
    let (w, wrote, ok) = write_all_ends net.sends (request opt body) fine enough in
    let s = write_all-IsSent net.sends (request opt body) w wrote in
    let all_out : w.out ≡ request opt body =
      sym (append-nil w.out) ∙ ap (λ x. w.out ++ x) (sym (s.whole ok)) ∙ s.parts in
    rw (wrote, ok, all_out, arrives, post)
      (await-arriving wild fd (request opt body) ps later full header_end want e h short asked
        sized)
