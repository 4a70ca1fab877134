-- ===== src/Sinks/Http/Endpoint.antt =====
-- src/sinks/http/endpoint.h and endpoint.cpp.
use slurm_tracer.Common.{
  ℕ, suc, ◌≤◌, ◌<◌, ◌≡◌, ◌≢◌, ◌∙◌, refl, true, not, ◌||◌, [], ◌∷◌, ◌++◌, Option, none, some, arith,
  ltb, ◌==◌, if◌then◌else◌, length, take, drop, take-append, drop-append, All-append,
}
use slurm_tracer.Text.{Bytes, codes, is_empty, starts_with, find, all_digits, strtoul}
use slurm_tracer.Text.Laws.{is_empty_of_ne}
use slurm_tracer.Text.Find.{Lacks, find-append}
use slurm_tracer.Text.Decimal.{to_string, value-to_string, all_digits-to_string, to_string-ne-nil}

pub record HttpEndpoint : Type 0 where
  pub host : Bytes
  pub port : ℕ
  pub path : Bytes

abbrev pub prefix : Bytes
prefix = codes "http://"

-- A port in decimal from 1 to 65535.
unfoldable pub parse_port : Bytes → Option ℕ
parse_port s = if is_empty s || not (all_digits s) then none else (elim (strtoul s) [
  | none ↦ none
  | some port ↦ if port == 0 || ltb 65_535 port then none else some port
])

-- `host[:port]`, with the path that was cut off.
unfoldable pub parse_authority : Bytes → Bytes → Option HttpEndpoint
parse_authority authority path = elim (find b':' authority) [
  | none ↦ some (record { host = authority; port = 80; path = path })
  | some colon ↦
      if is_empty (take colon authority)
      then none
      else (elim (parse_port (drop (suc colon) authority)) [
        | none ↦ none
        | some port ↦ some (record { host = take colon authority; port = port; path = path })
      ])
]

-- What follows the prefix.
unfoldable pub parse_rest : Bytes → Option HttpEndpoint
parse_rest rest = elim (find b'/' rest) [
  | none ↦ if is_empty rest then none else parse_authority rest (codes "/")
  | some slash ↦
      if is_empty (take slash rest)
      then none
      else parse_authority (take slash rest) (drop slash rest)
]

unfoldable pub parse_http_endpoint : Bytes → Option HttpEndpoint
parse_http_endpoint endpoint =
    if starts_with prefix endpoint then parse_rest (drop 7 endpoint) else none

parse_port-to_string :
    (port : ℕ) → 0 < port → port ≤ 65_535 → parse_port (to_string port) ≡ some port
unfolding parse_port strtoul
parse_port-to_string port h k = ground (
  arith,
  is_empty_of_ne (to_string port) (to_string-ne-nil port),
  all_digits-to_string port,
  value-to_string port,
)

abbrev pub authority_text : Bytes → ℕ → Bytes
authority_text host port = host ++ b':' ∷ to_string port

abbrev pub url : Bytes → ℕ → Bytes → Bytes
url host port path = prefix ++ (authority_text host port ++ b'/' ∷ path)

drop-append_suc : (s : Bytes) (c : ℕ) (t : Bytes) → drop (suc (length s)) (s ++ c ∷ t) ≡ t
drop-append_suc [] c t = refl
drop-append_suc (d ∷ s) c t = drop-append_suc s c t

parse_authority_text :
    (host : Bytes) (port : ℕ) (path : Bytes)
    → host ≢ []
    → Lacks b':' host
    → 0 < port
    → port ≤ 65_535
    → parse_authority (authority_text host port) path
      ≡ some (record { host = host; port = port; path = path })
unfolding parse_authority
parse_authority_text host port path full clean h k = ground (
  arith,
  find-append b':' host (to_string port) clean,
  take-append host (b':' ∷ to_string port),
  drop-append_suc host b':' (to_string port),
  is_empty_of_ne host full,
  parse_port-to_string port h k,
)

digits-Lacks : (b : ℕ) (s : Bytes) → b < b'0' → all_digits s ≡ true → Lacks b s
unfolding all_digits
digits-Lacks b [] h k = tt
digits-Lacks b (c ∷ s) h k = ground (arith, digits-Lacks b s h)

authority-Lacks :
    (host : Bytes) (port : ℕ) → Lacks b'/' host → Lacks b'/' (authority_text host port)
authority-Lacks host port h =
    All-append _ host (b':' ∷ to_string port) h
      (omega arith, digits-Lacks b'/' (to_string port) (omega arith) (all_digits-to_string port))

parse_rest_text :
    (authority path : Bytes)
    → authority ≢ []
    → Lacks b'/' authority
    → parse_rest (authority ++ b'/' ∷ path) ≡ parse_authority authority (b'/' ∷ path)
unfolding parse_rest
parse_rest_text authority path full clean = ground (
  arith,
  find-append b'/' authority path clean,
  take-append authority (b'/' ∷ path),
  drop-append authority (b'/' ∷ path),
  is_empty_of_ne authority full,
)

authority-ne-nil : (host : Bytes) (port : ℕ) → host ≢ [] → authority_text host port ≢ []
authority-ne-nil [] port h e = h refl
authority-ne-nil (c ∷ host) port h e = cc

-- The URL of a host, a port and a path is read back as they are, where the host is not empty and holds
-- no colon and no slash, and the port is from 1 to 65535.
pub parse-url :
    (host : Bytes) (port : ℕ) (path : Bytes)
    → host ≢ []
    → Lacks b':' host
    → Lacks b'/' host
    → 0 < port
    → port ≤ 65_535
    → parse_http_endpoint (url host port path)
      ≡ some (record { host = host; port = port; path = b'/' ∷ path })
unfolding parse_http_endpoint starts_with
parse-url host port path full clean whole h k =
    parse_rest_text (authority_text host port) path (authority-ne-nil host port full)
      (authority-Lacks host port whole)
    ∙ parse_authority_text host port (b'/' ∷ path) full clean h k

-- Whatever is accepted starts with the plain prefix, has a host, and a port from 1 to 65535.
pub parse_http_endpoint_sound :
    (s : Bytes) (e : HttpEndpoint)
    → parse_http_endpoint s ≡ some e
    → (starts_with prefix s ≡ true) × (e.host ≢ []) × (0 < e.port) × (e.port ≤ 65_535)
unfolding parse_http_endpoint parse_rest parse_authority parse_port
parse_http_endpoint_sound s e h = ground arith
