-- ===== src/Sinks/Http/Client.antt =====
-- `post` of src/sinks/http/sink.cpp, and what `run` does with one batch. `fd` is the connection, none for
-- a negative `fd_`; `wild` is what atoi returns for a number that is no int. No result at all is a call of
-- the network that has not returned, or the end of the process.
pub mod Framing
pub mod Delivery
pub mod Exchange
use slurm_tracer.Common.{
  ℕ, ◌+◌, ◌-◌, Bool, true, false, not, List, [], ◌∷◌, ◌++◌, Option, none, some, length,
  if◌then◌else◌,
}
use slurm_tracer.Text.{Bytes, codes}
use slurm_tracer.Text.Decimal.{to_string}
use slurm_tracer.Sinks.Http.Create.{Options}
use slurm_tracer.Sinks.Http.Socket.{
  Net, Sent, Received, ensure_connected, Wrote, write_all, crlf, Head, broken, headed, read_head,
  drain,
}
use slurm_tracer.Sinks.Http.Response.{Verdict, judge_head}

unfoldable pub request : Options → Bytes → Bytes
request opt body =
    codes "POST "
    ++ (opt.path
        ++ (codes " HTTP/1.1\r\n"
            ++ (codes "Host: "
                ++ (opt.host
                    ++ (codes "\r\n"
                        ++ (codes "Content-Type: application/x-ndjson\r\n"
                            ++ (codes "Content-Length: "
                                ++ (to_string (length body)
                                    ++ (codes "\r\n"
                                        ++ (codes "Connection: keep-alive\r\n\r\n" ++ body))))))))))

-- How a post ends: what it returns, the connection, the bytes that were sent, and the results of `recv`
-- that it has not used.
pub record Posted : Type 0 where
  pub ok : Bool
  pub fd : Option ℕ
  pub out : Bytes
  pub recvs : List Received

-- `close_connection` where it is asked for.
abbrev pub keep_unless : Bool → ℕ → Option ℕ
keep_unless true fd = none
keep_unless false fd = some fd

abbrev pub broken_off : Bytes → List Received → Posted
broken_off out recvs = record { ok = false; fd = none; out = out; recvs = recvs }

-- From the verdict on the head to the end of `post`; `have` bytes of the body are read already.
unfoldable pub finish : Verdict → ℕ → ℕ → Bytes → List Received → Option Posted
finish v have fd out rs = elim v.want [
  | none ↦ some (record { ok = v.ok; fd = keep_unless v.close fd; out = out; recvs = rs })
  | some want ↦ elim (drain have want rs) [
    | none ↦ none
    | some (cut_short, rest) ↦ some (record {
      ok = v.ok;
      fd = keep_unless (if cut_short then true else v.close) fd;
      out = out;
      recvs = rest;
    })
  ]
]

-- From the first `recv` on.
unfoldable pub await : Option ℕ → ℕ → Bytes → List Received → Option Posted
unfolding finish
await wild fd out rs = elim (read_head [] rs) [
  | none ↦ none
  | some (broken rest) ↦ some (broken_off out rest)
  | some (headed buf header_end rest) ↦
      finish (judge_head wild buf header_end) (length buf - (header_end + 4)) fd out rest
]

unfoldable pub post : Option ℕ → Options → Net → Option ℕ → Bytes → Option Posted
unfolding await
post wild opt net fd body = elim (ensure_connected net.addresses fd) [
  | none ↦ some (broken_off [] net.recvs)
  | some fd' ↦ elim (write_all net.sends (request opt body)) [
    | none ↦ none
    | some w ↦ if w.ok then await wild fd' w.out net.recvs else some (broken_off w.out net.recvs)
  ]
]

-- The fate of a batch: whether it is counted as dropped, the connection, and what its posts have sent.
pub record Fate : Type 0 where
  pub dropped : Bool
  pub fd : Option ℕ
  pub posts : List Bytes

-- `run` between taking a batch and counting it: a post, and one more on a new connection if that fails.
unfoldable pub deliver_batch : Option ℕ → Options → Net → Net → Option ℕ → Bytes → Option Fate
unfolding post
deliver_batch wild opt net again fd body = elim (post wild opt net fd body) [
  | none ↦ none
  | some p ↦
      let second = post wild opt again none body in
      if p.ok
      then some (record { dropped = false; fd = p.fd; posts = p.out ∷ [] })
      else (elim second [
        | none ↦ none
        | some q ↦ some (record { dropped = not q.ok; fd = q.fd; posts = p.out ∷ q.out ∷ [] })
      ])
]
