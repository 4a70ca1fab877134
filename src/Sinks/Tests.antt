-- ===== src/Sinks/Tests.antt =====
-- Sinks of room for one batch or two, and an endpoint.
use slurm_tracer.Common.{
  ◌≤◌, ◌+◌, ◌⊎◌, length, ◌<◌, ◌≡◌, ◌≢◌, refl, true, false, [], ◌∷◌, none, some, arith, ◌%◌,
}
use slurm_tracer.Text.{codes, starts_with, same, all_digits, strtoul, find}
use slurm_tracer.Text.Decimal.{to_string}
use slurm_tracer.Words.{u64}
use slurm_tracer.Dict.{text_key, lookup}
use slurm_tracer.Record.{new_record}
use slurm_tracer.Config.{ComponentConfig, get, get_uint, get_duration}
use slurm_tracer.Sinks.Null.{write_batches, write_batches-counts}
use slurm_tracer.Sinks.Queue.{
  Batch, QueueSink, waiting, finished, new_sink, write, push_back, evict, takes, delivers, loses,
  counts, leaves, leave, lose, WorkerStep, works, writes, Reach, here, next, WorkerReach, start,
  more, take, deliver, count_written,
}
use slurm_tracer.Sinks.Queue.Write.{write_lem, write_undefined}
use slurm_tracer.Sinks.Queue.Account.{Inv, Reach-Inv, flush_drains, held}
use slurm_tracer.Sinks.Queue.Order.{IsOrdered, Sub, line, keep, done, Reach-IsOrdered}
use slurm_tracer.Sinks.Queue.Drain.{WorkerRun, begins, goes_on, steps_left, drains}
use slurm_tracer.Sinks.Stdout.{create, create-Reach}
use slurm_tracer.Sinks.Http.Endpoint.{
  HttpEndpoint, parse_http_endpoint, parse-url, parse_http_endpoint_sound, parse_rest,
  parse_authority,
}
use slurm_tracer.Sinks.Http.Create.{Options, options, new_http_sink, zero_queue}

abbrev batch : Batch
batch = new_record ∷ []

-- Room for one batch, which is taken.
abbrev full : QueueSink
full = record {
  max_queued = 1;
  queue = batch ∷ [];
  stopping = false;
  written_batches = 0;
  queued_batches = 1;
  dropped = 0;
  worker = waiting;
  sent = [];
  accepted = batch ∷ [];
}

full-Inv : Inv full
full-Inv = record {
  balance = refl;
  small = omega arith;
  fits = omega arith;
  room = omega arith;
  closed = λ e. cc;
}

write_lem_run : (t : QueueSink) × (write full batch ≡ some t) × (t.queue ≡ batch ∷ [])
write_lem_run =
    let (t, e, q, _, _, _, _) = write_lem full batch (λ e. cc) (omega arith) in (t, e, q)

write_undefined_run : write (record full { max_queued = 0 }) batch ≡ none
write_undefined_run = write_undefined (record full { max_queued = 0 }) batch (λ e. cc) refl

abbrev taken : QueueSink
taken = take batch [] full

abbrev out : QueueSink
out = deliver batch taken

abbrev counted : QueueSink
counted = count_written out

full_delivers : WorkerReach full counted
full_delivers =
    more (more (more start (takes batch [] refl refl refl)) (delivers batch refl refl))
      (counts refl refl)

full_reaches : Reach full counted
full_reaches =
    next
      (next (next here (works (takes batch [] refl refl refl))) (works (delivers batch refl refl)))
      (works (counts refl refl))

Reach-Inv_example : Inv counted
Reach-Inv_example = Reach-Inv full counted full-Inv full_reaches

flush_drains_example :
    (counted.queue ≡ [])
    × (held counted.worker ≡ 0)
    × (counted.written_batches ≡ full.queued_batches)
flush_drains_example = flush_drains full counted full-Inv full_delivers refl refl

Reach-IsOrdered_example : IsOrdered counted
Reach-IsOrdered_example = Reach-IsOrdered full counted full-Inv (keep done) full_reaches

-- It is destroyed: the batch is taken, lost and counted, and the worker leaves.
abbrev doomed : QueueSink
doomed = record full { stopping = true }

abbrev gone : QueueSink
gone = leave (count_written (lose (take batch [] doomed)))

doomed_run : WorkerRun doomed 4 1 gone
doomed_run =
    goes_on
      (goes_on (goes_on (goes_on begins (takes batch [] refl refl refl)) (loses batch refl refl))
        (counts refl refl))
      (leaves refl refl refl refl)

drains_example :
    (4 ≤ steps_left doomed)
    × (((u : QueueSink) × WorkerStep gone u)
        ⊎ ((finished ≡ finished)
            × (gone.queue ≡ [])
            × Sub gone.sent (line doomed)
            × (1 + length gone.sent ≡ length (line doomed))))
drains_example = drains doomed gone 4 1 (λ e. cc) refl doomed_run

-- A sink that is configured with no room, after a write and the start of the worker's loop.
abbrev no_room : ComponentConfig
no_room = (codes "max_queued_batches", codes "0") ∷ []

create-Reach_run :
    (0 < (push_back batch (create no_room)).max_queued)
    × Inv (push_back batch (create no_room))
    × IsOrdered (push_back batch (create no_room))
unfolding create new_sink write evict get_uint get lookup same all_digits strtoul
create-Reach_run =
    create-Reach no_room (push_back batch (create no_room))
      (next here (writes batch refl (omega arith) refl))

parse-url_example :
    parse_http_endpoint (codes "http://vm:8428/write")
    ≡ some (record { host = codes "vm"; port = 8_428; path = codes "/write" })
unfolding to_string
parse-url_example =
    parse-url (codes "vm") 8_428 (codes "write") (λ e. cc) (ground arith) (ground arith)
      (omega arith) (omega arith)

abbrev default_port : HttpEndpoint
default_port = record { host = codes "vm"; port = 80; path = codes "/w" }

parse_http_endpoint_sound_run :
    (starts_with (codes "http://") (codes "http://vm/w") ≡ true)
    × (default_port.host ≢ [])
    × (0 < default_port.port)
    × (default_port.port ≤ 65_535)
unfolding parse_http_endpoint starts_with find parse_rest parse_authority
parse_http_endpoint_sound_run = parse_http_endpoint_sound (codes "http://vm/w") default_port refl

abbrev zero_config : ComponentConfig
zero_config = (codes "endpoint", codes "http://vm/w") ∷ (codes "max_queued_batches", codes "0") ∷ []

abbrev zero_options : Options
zero_options = record {
  host = codes "vm";
  port = 80;
  path = codes "/w";
  max_queued_batches = 0;
  timeout = 5_000;
}

zero_queue_example : write (new_http_sink zero_options) batch ≡ none
unfolding options get get_uint get_duration lookup same parse_http_endpoint starts_with find
    parse_rest parse_authority all_digits strtoul
zero_queue_example = zero_queue zero_config zero_options batch refl refl (λ e. cc)

write_batches-counts_run :
    (write_batches (record { records = 1 }) (batch ∷ batch ∷ [])).records % u64 ≡ 3
write_batches-counts_run = write_batches-counts (record { records = 1 }) (batch ∷ batch ∷ [])
