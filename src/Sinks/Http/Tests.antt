-- ===== src/Sinks/Http/Tests.antt =====
-- A response in two pieces, one that is an error, and a batch whose first post fails.
use slurm_tracer.Common.{◌≡◌, ◌⊎◌, refl, true, false, List, [], ◌∷◌, ◌++◌, none, some, arith}
use slurm_tracer.Text.{Bytes, codes, find, starts_with, lower, value}
use slurm_tracer.Text.Decimal.{to_string}
use slurm_tracer.Text.Scan.{find_text, skip_space, leading_digits, split_sign, strtoul_prefix, atoi}
use slurm_tracer.Sinks.Http.Create.{Options}
use slurm_tracer.Sinks.Http.Socket.{
  Net, sent, interrupted, Received, got, ended, connected, refused, ensure_connected, write_all,
  read_head, drain,
}
use slurm_tracer.Sinks.Http.Response.{
  parse_status_code, skip_blanks, header_value, body_length, judge, judge_head,
}
use slurm_tracer.Sinks.Http.Client.{request, finish, await, post, deliver_batch}
use slurm_tracer.Sinks.Http.Client.Framing.{Piece, arriving}
use slurm_tracer.Sinks.Http.Client.Exchange.{post-arriving}
use slurm_tracer.Sinks.Http.Client.Delivery.{deliver_batch_lem}

abbrev opt : Options
opt = record {
  host = codes "vm";
  port = 80;
  path = codes "/w";
  max_queued_batches = 1;
  timeout = 5_000;
}

abbrev piece : Bytes → List Piece → List Piece
piece [] ps = ps
piece (c ∷ s) ps = (c, s) ∷ ps

-- A head that ends within the second piece, and a body of two bytes.
abbrev first_piece : Bytes
first_piece = codes "HTTP/1.1 204 No Content\r\nContent-Le"

abbrev second_piece : Bytes
second_piece = codes "ngth: 2\r\n\r\nok"

abbrev ack : List Piece
ack = piece first_piece (piece second_piece [])

abbrev next_response : List Received
next_response = got b'H' (codes "TTP/1.1") ∷ []

abbrev working : Net
working = record {
  addresses = none;
  sends = sent 9 ∷ interrupted ∷ sent 200 ∷ [];
  recvs = arriving ack next_response;
}

post-arriving_example :
    post none opt working (some 3) (codes "{}")
    ≡ some
        (record { ok = true; fd = some 3; out = request opt (codes "{}"); recvs = next_response })
unfolding find_text starts_with judge_head judge lower find parse_status_code skip_blanks
    header_value body_length strtoul_prefix atoi skip_space leading_digits split_sign value request
    to_string
post-arriving_example =
    post-arriving none opt working 3 (codes "{}") ack next_response (first_piece ++ second_piece) 42
      2 ((λ e. cc), ((λ e. cc), ((λ e. cc), tt))) (omega arith) refl refl refl (omega arith) refl
      refl

-- The server takes the request and closes the connection.
abbrev unanswered : Net
unanswered = record {
  addresses = some (refused ∷ connected 4 ∷ []);
  sends = sent 300 ∷ [];
  recvs = ended ∷ [];
}

abbrev answered : Net
answered = record {
  addresses = some (connected 5 ∷ []);
  sends = sent 300 ∷ [];
  recvs = arriving ack [];
}

abbrev twice : List Bytes
twice = request opt (codes "{}") ∷ request opt (codes "{}") ∷ []

deliver_batch_example :
    ((false ≡ false) × (twice ≡ request opt (codes "{}") ∷ []))
    ⊎ (((false ≡ false) × (first : Bytes) × (twice ≡ first ∷ request opt (codes "{}") ∷ []))
        ⊎ ((false ≡ true) × (first second : Bytes) × (twice ≡ first ∷ second ∷ [])))
unfolding deliver_batch post await finish ensure_connected write_all read_head drain find_text
    starts_with judge_head judge lower find parse_status_code skip_blanks header_value body_length
    strtoul_prefix atoi skip_space leading_digits split_sign value request to_string
deliver_batch_example =
    deliver_batch_lem none opt unanswered answered none (codes "{}")
      (record { dropped = false; fd = some 5; posts = twice }) refl
