-- ===== src/Sinks/Http/Socket.antt =====
-- What src/sinks/http/sink.cpp asks of the network, as the results of the calls in their order, and the
-- loops over those calls: `ensure_connected`, `write_all`, and the reading of a response in `post`. A loop
-- that needs one more result than there is gives none: its call has not returned. It gives none as well
-- where a signal ends the process.
use slurm_tracer.Common.{
  ℕ, suc, ◌+◌, ◌*◌, ◌/◌, ◌%◌, Bool, true, false, List, [], ◌∷◌, ◌++◌, Option, none, some, length,
  take, drop, ltb, if◌then◌else◌,
}
use slurm_tracer.Text.{Bytes}
use slurm_tracer.Text.Scan.{find_text}

-- One address of getaddrinfo: no socket for it, a connection that fails, or one that is there.
pub data Attempt : Type 0 where
  no_socket refused : Attempt
  connected : ℕ → Attempt

-- What `send` comes to: n + 1 bytes taken, EINTR, or anything else that is returned; or the SIGPIPE of a
-- connection that the peer has closed, which no flag and no handler keeps from ending the process.
pub data Sent : Type 0 where
  sent : ℕ → Sent
  interrupted failed sigpipe : Sent

-- What `recv` returns: a byte and those behind it, or anything else, the end of the stream included.
pub data Received : Type 0 where
  got : ℕ → Bytes → Received
  ended : Received

-- What the network does during one `post`. No list of addresses is a getaddrinfo that fails.
pub record Net : Type 0 where
  pub addresses : Option (List Attempt)
  pub sends : List Sent
  pub recvs : List Received

-- The loop over the addresses.
unfoldable pub try_addresses : List Attempt → Option ℕ
try_addresses [] = none
try_addresses (connected fd ∷ rest) = some fd
try_addresses (_ ∷ rest) = try_addresses rest

-- The connection afterwards: none is a result of false.
unfoldable pub ensure_connected : Option (List Attempt) → Option ℕ → Option ℕ
unfolding try_addresses
ensure_connected addresses (some fd) = some fd
ensure_connected none none = none
ensure_connected (some attempts) none = try_addresses attempts

-- The timeout of the socket, in seconds and microseconds.
unfoldable pub timeval : ℕ → ℕ × ℕ
timeval timeout = (timeout / 1_000, timeout % 1_000 * 1_000)

-- What `write_all` returns, the bytes that were taken, and the results that are left.
pub record Wrote : Type 0 where
  pub ok : Bool
  pub out : Bytes
  pub rest : List Sent

abbrev pub prepend : Bytes → Option Wrote → Option Wrote
prepend before none = none
prepend before (some w) = some (record { ok = w.ok; out = before ++ w.out; rest = w.rest })

unfoldable pub write_all : List Sent → Bytes → Option Wrote
write_all rs [] = some (record { ok = true; out = []; rest = rs })
write_all [] (b ∷ bs) = none
write_all (sent n ∷ rs) (b ∷ bs) =
    prepend (take (suc n) (b ∷ bs)) (write_all rs (drop (suc n) (b ∷ bs)))
write_all (sigpipe ∷ rs) (b ∷ bs) = none
write_all (interrupted ∷ rs) (b ∷ bs) = write_all rs (b ∷ bs)
write_all (failed ∷ rs) (b ∷ bs) = some (record { ok = false; out = []; rest = rs })

abbrev pub crlf : Bytes
crlf = 13 ∷ 10 ∷ []

abbrev pub blank_line : Bytes
blank_line = crlf ++ crlf

abbrev pub max_head : ℕ
max_head = 64 * 1_024

-- How the reading of the header block ends: with no end of it in sight, or with all that was read and the
-- place of the blank line; and the results that are left.
pub data Head : Type 0 where
  broken : List Received → Head
  headed : Bytes → ℕ → List Received → Head

unfoldable pub read_head : Bytes → List Received → Option Head
read_head buf [] = none
read_head buf (ended ∷ rs) = some (broken rs)
read_head buf (got c s ∷ rs) =
    let buf' = buf ++ (c ∷ s) in
    let more = read_head buf' rs in
    elim (find_text blank_line buf') [
      | some i ↦ some (headed buf' i rs)
      | none ↦ if ltb max_head (length buf') then some (broken rs) else more
    ]

-- The loop that reads the rest of the body: whether it was cut short, and the results that are left.
unfoldable pub drain : ℕ → ℕ → List Received → Option (Bool × List Received)
drain have want [] = if ltb have want then none else some (false, [])
drain have want (ended ∷ rs) = if ltb have want then some (true, rs) else some (false, ended ∷ rs)
drain have want (got c s ∷ rs) =
    let more = drain (have + length (c ∷ s)) want rs in
    if ltb have want then more else some (false, got c s ∷ rs)
