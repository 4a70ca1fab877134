-- ===== src/Daemon/Run/Delivered.antt =====
-- Nothing is lost while events arrive and while the pipeline ticks.
use slurm_tracer.Common.{
  ℕ, ◌≡◌, refl, sym, ap, subst, ◌∙◌, List, [], ◌∷◌, ◌++◌, append-nil, append_chain,
}
use slurm_tracer.Record.{Record}
use slurm_tracer.Pipeline.{Env, Pipeline, enrich}
use slurm_tracer.Pipeline.Delivery.{
  Once, Delivers, received, received-append, emit-Delivers, tick-Delivers,
}
use slurm_tracer.Daemon.{relabel}
use slurm_tracer.Daemon.Run.{Arrival, lifecycle, emitted, Round, arrive, arrive_all, ticks}

-- The records of some arrivals, as they stand after enrichment, each under the id of its probe.
unfoldable pub records : Env → List Arrival → Pipeline → List Record
records env [] p = []
records env (lifecycle len e ∷ rest) p = records env rest (arrive env (lifecycle len e) p).0
records env (emitted id r ∷ rest) p =
    (enrich env p (relabel id r)).0 ∷ records env rest (arrive env (emitted id r) p).0

arrive-Delivers :
    (s : ℕ) (env : Env) (a : Arrival) (p : Pipeline)
    → Once s p.sinks
    → Delivers s p.sinks (p.batch ++ records env (a ∷ []) p) (arrive env a p)
unfolding arrive records received
arrive-Delivers s env (lifecycle len e) p once = record {
  same_sinks = refl;
  nothing_lost = sym (append-nil p.batch);
}
arrive-Delivers s env (emitted id r) p once = emit-Delivers s env p (relabel id r) once

records-cons :
    (env : Env) (a : Arrival) (rest : List Arrival) (p : Pipeline)
    → records env (a ∷ rest) p ≡ records env (a ∷ []) p ++ records env rest (arrive env a p).0
unfolding records
records-cons env (lifecycle len e) rest p = refl
records-cons env (emitted id r) rest p = refl

pub arrive_all-Delivers :
    (s : ℕ) (env : Env) (rest : List Arrival) (p : Pipeline)
    → Once s p.sinks
    → Delivers s p.sinks (p.batch ++ records env rest p) (arrive_all env rest p)
unfolding arrive_all records received
arrive_all-Delivers s env [] p once = record {
  same_sinks = refl;
  nothing_lost = sym (append-nil p.batch);
}
arrive_all-Delivers s env (a ∷ rest) p once =
    let d = arrive-Delivers s env a p once in
    let (q, calls) = arrive env a p in
    let ih = arrive_all-Delivers s env rest q (subst (Once s) (sym d.same_sinks) once) in
    let (last, more) = arrive_all env rest q in
    record {
      same_sinks = ih.same_sinks ∙ d.same_sinks;
      nothing_lost =
          ap (λ t. t ++ last.batch) (received-append s calls more)
          ∙ append_chain p.batch q.batch (received s calls) (received s more) last.batch
              (records env (a ∷ []) p) (records env rest q) d.nothing_lost ih.nothing_lost
          ∙ ap (λ t. p.batch ++ t) (sym (records-cons env a rest p));
    }

pub ticks-Delivers :
    (s : ℕ) (r : Round) (p : Pipeline) → Once s p.sinks → Delivers s p.sinks p.batch (ticks r p)
unfolding ticks
ticks-Delivers s r p once = tick-Delivers s _ r.now once
