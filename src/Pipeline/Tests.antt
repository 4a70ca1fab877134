-- ===== src/Pipeline/Tests.antt =====
-- The pipeline on a run of two records.
use slurm_tracer.Common.{◌≡◌, refl, inl, inr, List, [], ◌∷◌, ◌++◌, none, some, arith}
use slurm_tracer.Text.{codes}
use slurm_tracer.Record.{Record, new_record}
use slurm_tracer.Pipeline.{Pipeline, Env, lookup_user, enrich, tick}
use slurm_tracer.Pipeline.Enrich.{IsEnriched, enrich-IsEnriched, lookup_user_once}
use slurm_tracer.Pipeline.Delivery.{
  Call, emits, ticks, flushes, run, received, all_added, run-delivers,
}
use slurm_tracer.Pipeline.Bounds.{IsBounded, run-IsBounded, tick_when}

-- Two sinks, batches of two records, an interval of 5 milliseconds.
abbrev p0 : Pipeline
p0 = record {
  opt = record { node = codes "n1"; cluster = codes "c"; batch_size = 2; flush_interval = 5 };
  sinks = 10 ∷ 20 ∷ [];
  resolver = record {
    root = codes "/cg";
    grace_ns = 1_000;
    entries = [];
    stats = record { hits = 0; misses = 0; rescans = 0; stale = 0 };
  };
  batch = [];
  last_flush = 0;
  user_cache = [];
  stats = record { records = 0; unattributed = 0 };
}

abbrev root_only : Env
root_only = record { passwd = λ uid. some (codes "root"); boot_offset = 1_000 }

abbrev nobody : Env
nobody = record { passwd = λ uid. none; boot_offset = 1_000 }

abbrev first : Record
first = record new_record { ts_ns = 3; uid = some 0 }

abbrev calls : List Call
calls =
    emits root_only first ∷ ticks 4 ∷ emits root_only first ∷ emits nobody first ∷ flushes 9 ∷ []

enrich-IsEnriched_example :
    IsEnriched root_only p0 first (enrich root_only p0 first).0 (enrich root_only p0 first).1
enrich-IsEnriched_example = enrich-IsEnriched root_only p0 first

lookup_user_once_run :
    lookup_user nobody (lookup_user root_only [] 0).1 0 ≡ lookup_user root_only [] 0
lookup_user_once_run = lookup_user_once root_only nobody [] 0

run-delivers_example : received 20 (run p0 calls).1 ++ (run p0 calls).0.batch ≡ all_added p0 calls
run-delivers_example = run-delivers 20 p0 calls (inr ((λ e. omega (arith, e)), inl (refl, tt)))

run-IsBounded_example : IsBounded 2 (run p0 calls)
run-IsBounded_example = run-IsBounded 2 p0 calls refl (omega arith)

tick_when_run : tick p0 4_000_000 ≡ (p0, [])
tick_when_run = (tick_when p0 4_000_000).0 (omega arith)
