-- ===== src/Sinks/Http/Response.antt =====
-- What `post` of src/sinks/http/sink.cpp makes of the head of a response.
use slurm_tracer.Common.{
  ℕ, suc, ◌+◌, Bool, false, ◌&&◌, ◌||◌, [], ◌∷◌, ◌++◌, Option, none, some, length, take, drop, ltb,
  leb, ◌==◌, is_some, if◌then◌else◌,
}
use slurm_tracer.Text.{Bytes, codes, find, is_empty, lower}
use slurm_tracer.Text.Scan.{find_text, strtoul_prefix, atoi}
use slurm_tracer.Sinks.Http.Socket.{crlf}

-- The text up to a place, or all of it.
abbrev pub up_to : Option ℕ → Bytes → Bytes
up_to none s = s
up_to (some k) s = take k s

-- A status that is negative is none.
unfoldable pub parse_status_code : Option ℕ → Bytes → Option ℕ
parse_status_code wild line = elim (find b' ' line) [
  | none ↦ some 0
  | some sp ↦ let rest = drop (suc sp) line in atoi wild (up_to (find b' ' rest) rest)
]

unfoldable pub skip_blanks : Bytes → Bytes
skip_blanks [] = []
skip_blanks (c ∷ s) = let rest = skip_blanks s in if c == b' ' then rest else c ∷ s

unfoldable pub header_value : Bytes → Bytes → Bytes
unfolding skip_blanks
header_value headers name = elim (find_text (name ++ codes ":") headers) [
  | none ↦ []
  | some pos ↦
      let rest = skip_blanks (drop (pos + length name + 1) headers) in
      up_to (find_text crlf rest) rest
]

abbrev pub is_success : Option ℕ → Bool
is_success none = false
is_success (some status) = leb 200 status && ltb status 300

-- What the head says: whether the post succeeded, whether the connection is to be closed, and the length of
-- the body where it is to be read.
pub record Verdict : Type 0 where
  pub ok : Bool
  pub close : Bool
  pub want : Option ℕ

unfoldable pub body_length : Bytes → Option ℕ
body_length text = if is_empty text then none else some (strtoul_prefix text)

-- `headers` is the head without its blank line, in lower case.
unfoldable pub judge : Option ℕ → Bytes → Bytes → Verdict
unfolding body_length
judge wild status_line headers =
    let chunked = is_some (find_text (codes "transfer-encoding: chunked") headers) in
    let closes = is_some (find_text (codes "connection: close") headers) in
    record {
      ok = is_success (parse_status_code wild status_line);
      close = chunked || closes;
      want = if chunked then none else body_length (header_value headers (codes "content-length"));
    }

-- All that was read, and the place of the blank line in it.
unfoldable pub judge_head : Option ℕ → Bytes → ℕ → Verdict
judge_head wild buf header_end =
    judge wild (up_to (find_text crlf buf) buf) (lower (take header_end buf))
