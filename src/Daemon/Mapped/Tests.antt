-- ===== src/Daemon/Mapped/Tests.antt =====
-- A probe comes and leaves.
use slurm_tracer.Common.{refl}
use slurm_tracer.Text.{codes}
use slurm_tracer.Dict.{lookup}
use slurm_tracer.Config.{default_config}
use slurm_tracer.Daemon.{Daemon, Call, Machine, new_daemon, add_probe, remove_probe}
use slurm_tracer.Daemon.Mapped.Held.{begins, adds_probe, removes_probe, IsHeld, Reach-IsHeld}
use slurm_tracer.Common.{◌≡◌, some, true, List, ◌∷◌, ◌++◌, []}
use slurm_tracer.Daemon.Mapped.Trace.{spare}

abbrev machine : Machine
machine = record {
  linker = record {
    dlopen = λ path. some 5;
    entry = λ handle symbol. some ((codes "oom", λ config. some 4) ∷ []);
  };
  bpf = record { ring_fd = λ probe. some probe; arms = λ rb fd. true };
  opens = λ probe config. true;
  loads = λ probe. true;
  attaches = λ probe. true;
  new_emitter = 40;
}

abbrev loaded : Daemon × List Call
loaded = add_probe machine (new_daemon default_config []) (codes "oom") []

abbrev unloaded : Daemon × List Call
unloaded = remove_probe machine loaded.0 (codes "oom")

Reach-IsHeld_example : IsHeld unloaded.0 × (spare 0 (([] ++ loaded.1) ++ unloaded.1) ≡ some 0)
unfolding new_daemon lookup
Reach-IsHeld_example =
    Reach-IsHeld default_config [] (([] ++ loaded.1) ++ unloaded.1) unloaded.0
      (removes_probe machine (codes "oom") (adds_probe machine (codes "oom") [] begins refl))
