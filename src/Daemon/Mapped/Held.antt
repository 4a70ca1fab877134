-- ===== src/Daemon/Mapped/Held.antt =====
-- No plugin is unmapped while an instance of it runs.
use slurm_tracer.Common.{◌≡◌, refl, sym, subst, inl, inr, List, [], ◌++◌, none, some}
use slurm_tracer.Text.{Bytes}
use slurm_tracer.Dict.{text_key, lookup}
use slurm_tracer.Config.{ComponentConfig, Config}
use slurm_tracer.Daemon.{
  Daemon, Machine, Call, new_daemon, add_sink, remove_sink, add_probe, remove_probe,
}
use slurm_tracer.Daemon.Running.{
  IsUnique, sinks_running, probes_running, erase-IsUnique, snoc-IsUnique,
}
use slurm_tracer.Daemon.Running.Sinks.{SinksOnly, loaded_sink, add_sink_lem, remove_sink_lem}
use slurm_tracer.Daemon.Running.Probes.{ProbesOnly, remove_probe_lem}
use slurm_tracer.Daemon.Running.Added.{add_probe_lem}
use slurm_tracer.Daemon.Reload.Sinks.{under-IsUnique}
use slurm_tracer.Daemon.Mapped.{IsMapped}
use slurm_tracer.Daemon.Mapped.Steps.{
  SinksMapped, ProbesMapped, SinkHeld, add_sink-SinkHeld, remove_sink-SinkHeld,
}
use slurm_tracer.Daemon.Mapped.Trace.{spare, Exact, Exact-append}
use slurm_tracer.Daemon.Mapped.Order.{
  add_sink-Exact, remove_sink-Exact, add_probe-Exact, remove_probe-Exact,
}
use slurm_tracer.Daemon.Mapped.Probes.{ProbeHeld, add_probe-ProbeHeld, remove_probe-ProbeHeld}

-- The states that a daemon's probes and sinks come to, with all the calls that have been made on the way. An
-- id that runs is not added again.
pub data Reach (config : Config) (path : Bytes) : List Call → Daemon → Type 0 where
  begins : Reach config path [] (new_daemon config path)
  adds_sink :
      {calls : List Call} {d : Daemon} (m : Machine) (id : Bytes) (c : ComponentConfig)
      → Reach config path calls d
      → lookup id (sinks_running d.sinks) ≡ none
      → Reach config path (calls ++ (add_sink m d id c).1) (add_sink m d id c).0
  removes_sink :
      {calls : List Call} {d : Daemon} (id : Bytes)
      → Reach config path calls d
      → Reach config path (calls ++ (remove_sink d id).1) (remove_sink d id).0
  adds_probe :
      {calls : List Call} {d : Daemon} (m : Machine) (id : Bytes) (c : ComponentConfig)
      → Reach config path calls d
      → lookup id (probes_running d.probes) ≡ none
      → Reach config path (calls ++ (add_probe m d id c).1) (add_probe m d id c).0
  removes_probe :
      {calls : List Call} {d : Daemon} (m : Machine) (id : Bytes)
      → Reach config path calls d
      → Reach config path (calls ++ (remove_probe m d id).1) (remove_probe m d id).0

-- Each id runs once, and the plugin of all that runs is held.
pub record IsHeld (d : Daemon) : Type 0 where
  pub unique_sinks : IsUnique (sinks_running d.sinks)
  pub unique_probes : IsUnique (probes_running d.probes)
  pub sinks : SinksMapped d
  pub probes : ProbesMapped d

after_sinks :
    (d e : Daemon)
    → IsHeld d
    → SinksOnly d e
    → SinkHeld d e
    → IsUnique (sinks_running e.sinks)
    → IsHeld e
after_sinks d e h only held unique = record {
  unique_sinks = unique;
  unique_probes = subst (λ t. IsUnique (probes_running t)) (sym only.probes) h.unique_probes;
  sinks = held.sinks;
  probes =
      subst (λ t. IsMapped (probes_running t) e.loader.probe_handles) (sym only.probes)
        (subst (λ k. IsMapped (probes_running d.probes) k) (sym held.others) h.probes);
}

after_probes :
    (d e : Daemon)
    → IsHeld d
    → ProbesOnly d e
    → ProbeHeld d e
    → IsUnique (probes_running e.probes)
    → IsHeld e
after_probes d e h only held unique = record {
  unique_sinks = subst (λ t. IsUnique (sinks_running t)) (sym only.sinks) h.unique_sinks;
  unique_probes = unique;
  sinks =
      subst (λ t. IsMapped (sinks_running t) e.loader.sink_handles) (sym only.sinks)
        (subst (λ k. IsMapped (sinks_running d.sinks) k) (sym held.others) h.sinks);
  probes = held.probes;
}

states :
    (config : Config) (path : Bytes) (calls : List Call) (d : Daemon)
    → Reach config path calls d
    → IsHeld d
unfolding new_daemon lookup
states config path calls d begins = record {
  unique_sinks = tt;
  unique_probes = tt;
  sinks = λ x a h. cc;
  probes = λ x a h. cc;
}
states config path calls d (adds_sink {calls = before} {d = b} m id c r fresh) =
    let h = states config path before b r in
    let step = add_sink_lem m b id c in
    after_sinks b (add_sink m b id c).0 h step.only (add_sink-SinkHeld m b id c h.sinks) (
      subst IsUnique (sym step.running)
        (under-IsUnique id (loaded_sink m b id c) (sinks_running b.sinks) fresh h.unique_sinks))
states config path calls d (removes_sink {calls = before} {d = b} id r) =
    let h = states config path before b r in
    let step = remove_sink_lem b id in
    after_sinks b (remove_sink b id).0 h step.only
      (remove_sink-SinkHeld b id h.unique_sinks h.sinks)
      (subst IsUnique (sym step.running) (erase-IsUnique id (sinks_running b.sinks) h.unique_sinks))
states config path calls d (adds_probe {calls = before} {d = b} m id c r fresh) =
    let h = states config path before b r in
    let step = add_probe_lem m b id c in
    after_probes b (add_probe m b id c).0 h step.only (add_probe-ProbeHeld m b id c fresh h.probes)
      (elim step.running [
        | inl e ↦ subst IsUnique (sym e) h.unique_probes
        | inr (a, _, e) ↦
            subst IsUnique (sym e)
              (snoc-IsUnique id a (probes_running b.probes) fresh h.unique_probes)
      ])
states config path calls d (removes_probe {calls = before} {d = b} m id r) =
    let h = states config path before b r in
    let (fewer, _) = remove_probe_lem m b id h.unique_probes in
    after_probes b (remove_probe m b id).0 h fewer.only
      (remove_probe-ProbeHeld m b id h.unique_probes h.probes) fewer.unique

trace :
    (config : Config) (path : Bytes) (calls : List Call) (d : Daemon)
    → Reach config path calls d
    → Exact calls
trace config path calls d begins = λ n. refl
trace config path calls d (adds_sink {calls = before} {d = b} m id c r fresh) =
    Exact-append before (add_sink m b id c).1 (trace config path before b r)
      (add_sink-Exact m b id c)
trace config path calls d (removes_sink {calls = before} {d = b} id r) =
    Exact-append before (remove_sink b id).1 (trace config path before b r)
      (remove_sink-Exact b id (states config path before b r).sinks)
trace config path calls d (adds_probe {calls = before} {d = b} m id c r fresh) =
    Exact-append before (add_probe m b id c).1 (trace config path before b r)
      (add_probe-Exact m b id c)
trace config path calls d (removes_probe {calls = before} {d = b} m id r) =
    let h = states config path before b r in
    Exact-append before (remove_probe m b id).1 (trace config path before b r)
      (remove_probe-Exact m b id h.unique_probes h.probes)

-- Through any adding of sinks and probes under ids that do not run, and any removing, whichever of it fails
-- and whatever the event loop drops besides: the loader holds the plugin of every sink and of every probe that
-- runs, and no two run under one id. And of all the calls made on the way, call by call, there are never more
-- instances than open plugins, and in the end as many: none is created before a plugin has been opened for it,
-- and no plugin is closed before an instance has been destroyed for it.
pub Reach-IsHeld :
    (config : Config) (path : Bytes) (calls : List Call) (d : Daemon)
    → Reach config path calls d
    → IsHeld d × (spare 0 calls ≡ some 0)
Reach-IsHeld config path calls d r = (states config path calls d r, trace config path calls d r 0)
