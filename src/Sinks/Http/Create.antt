-- ===== src/Sinks/Http/Create.antt =====
-- The construction of HttpSink: HttpSink::Options of src/sinks/http/sink.h, and the factory of
-- `st_register_sink` in src/sinks/http/sink.cpp.
use slurm_tracer.Common.{ℕ, ◌≡◌, ◌≢◌, [], Option, none, some, arith}
use slurm_tracer.Text.{Bytes, codes}
use slurm_tracer.Config.{ComponentConfig, get, get_uint, get_duration}
use slurm_tracer.Sinks.Queue.{Batch, QueueSink, new_sink, write}
use slurm_tracer.Sinks.Queue.Write.{write_undefined}
use slurm_tracer.Sinks.Http.Endpoint.{parse_http_endpoint}

pub record Options : Type 0 where
  pub host : Bytes
  pub port : ℕ
  pub path : Bytes
  pub max_queued_batches : ℕ
  -- Milliseconds.
  pub timeout : ℕ

unfoldable pub options : ComponentConfig → Option Options
options config = elim (parse_http_endpoint (get config (codes "endpoint") [])) [
  | none ↦ none
  | some e ↦ some (record {
    host = e.host;
    port = e.port;
    path = e.path;
    max_queued_batches = get_uint config (codes "max_queued_batches") 1_024;
    timeout = get_duration config (codes "timeout") 5_000;
  })
]

-- `HttpSink(opt)`.
unfoldable pub new_http_sink : Options → QueueSink
new_http_sink opt = new_sink opt.max_queued_batches

-- An http sink that is configured with a queue of no batches is built all the same, and then its first
-- write of any records has no defined behaviour.
pub zero_queue :
    (config : ComponentConfig) (opt : Options) (b : Batch)
    → options config ≡ some opt
    → get_uint config (codes "max_queued_batches") 1_024 ≡ 0
    → b ≢ []
    → write (new_http_sink opt) b ≡ none
unfolding options new_http_sink new_sink
zero_queue config opt b built zero full = write_undefined (new_http_sink opt) b full (ground arith)
