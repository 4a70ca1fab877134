-- ===== src/Daemon/Run/Labels.antt =====
-- The probes that the records of a run name.
use slurm_tracer.Common.{◌≡◌, refl, List, [], ◌∷◌, ◌++◌}
use slurm_tracer.Text.{Bytes}
use slurm_tracer.Record.{Record}
use slurm_tracer.Pipeline.{Env, Pipeline}
use slurm_tracer.Pipeline.Enrich.{enrich-IsEnriched}
use slurm_tracer.Daemon.{relabel}
use slurm_tracer.Daemon.Run.{Arrival, lifecycle, emitted, arrive}
use slurm_tracer.Daemon.Run.Delivered.{records}

-- The ids under which the probes run that emit a record, in order.
abbrev pub emitters : List Arrival → List Bytes
emitters [] = []
emitters (lifecycle len e ∷ rest) = emitters rest
emitters (emitted id r ∷ rest) = id ∷ emitters rest

abbrev pub labels : List Record → List Bytes
labels [] = []
labels (r ∷ rs) = r.probe ∷ labels rs

pub labels-append : (xs ys : List Record) → labels (xs ++ ys) ≡ labels xs ++ labels ys
labels-append [] ys = refl
labels-append (x ∷ xs) ys = λ i. x.probe ∷ labels-append xs ys i

pub labels-records :
    (env : Env) (arrivals : List Arrival) (p : Pipeline)
    → labels (records env arrivals p) ≡ emitters arrivals
unfolding records relabel
labels-records env [] p = refl
labels-records env (lifecycle len e ∷ rest) p =
    labels-records env rest (arrive env (lifecycle len e) p).0
labels-records env (emitted id r ∷ rest) p = λ i.
    (enrich-IsEnriched env p (relabel id r)).payload.probe i
    ∷ labels-records env rest (arrive env (emitted id r) p).0 i
