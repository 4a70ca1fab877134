-- ===== src/Sinks/Stdout.antt =====
-- The construction of StdoutJsonSink, and the text that it writes: src/sinks/stdout_json/sink.cpp.
use slurm_tracer.Common.{
  ℕ, ◌<◌, Option, none, some, List, [], ◌∷◌, ◌++◌, arith, ◌==◌, if◌then◌else◌,
}
use slurm_tracer.Text.{Bytes, codes}
use slurm_tracer.Record.{Record}
use slurm_tracer.Record.Json.{Json, to_json}
use slurm_tracer.Config.{ComponentConfig, get_uint}
use slurm_tracer.Sinks.Queue.{QueueSink, new_sink, Reach}
use slurm_tracer.Sinks.Queue.Account.{Inv, new_sink-Inv, Reach-Inv}
use slurm_tracer.Sinks.Queue.Order.{IsOrdered, done, Reach-IsOrdered}

unfoldable pub new_stdout_sink : ℕ → QueueSink
new_stdout_sink max_queued_batches =
    new_sink (if max_queued_batches == 0 then 1 else max_queued_batches)

-- The factory of `st_register_sink`.
unfoldable pub create : ComponentConfig → QueueSink
unfolding new_stdout_sink
create config = new_stdout_sink (get_uint config (codes "max_queued_batches") 1_024)

-- The text of a batch: one line for each record. HttpSink posts the same text. It is none where the printer
-- throws, which nothing catches in the worker's thread.
unfoldable pub batch_text : (List (Bytes × Json) → Option Bytes) → List Record → Option Bytes
unfolding to_json
batch_text dump [] = some []
batch_text dump (r ∷ rs) =
    let rest = batch_text dump rs in
    elim (to_json dump r) [
      | none ↦ none
      | some line ↦ elim rest [ none ↦ none | some lines ↦ some (line ++ (b'\n' ∷ lines)) ]
    ]

create-Inv : (config : ComponentConfig) → Inv (create config)
unfolding create
create-Inv config = new_sink-Inv _ (ground arith)

create-IsOrdered : (config : ComponentConfig) → IsOrdered (create config)
unfolding create new_sink
create-IsOrdered config = done

-- Whatever the setting, 0 included: a stdout sink has room for a batch, so that its writes are defined;
-- and in every state that its threads reach, the counts agree with the batches and what is out, held and
-- waiting is in the order of acceptance.
pub create-Reach :
    (config : ComponentConfig) (t : QueueSink)
    → Reach (create config) t
    → (0 < t.max_queued) × Inv t × IsOrdered t
create-Reach config t reached =
    let kept = Reach-Inv (create config) t (create-Inv config) reached in
    (
      kept.room,
      kept,
      Reach-IsOrdered (create config) t (create-Inv config) (create-IsOrdered config) reached,
    )
