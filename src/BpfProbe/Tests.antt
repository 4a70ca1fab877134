-- ===== src/BpfProbe/Tests.antt =====
-- A probe whose programs load, but do not attach.
use slurm_tracer.Common.{◌≡◌, refl, true, false, none, some, [], ◌++◌}
use slurm_tracer.BpfProbe.{Ops, new_probe, open_skeleton, load, attach, detach}
use slurm_tracer.BpfProbe.Protocol.{
  starts, opens_it, loads_it, attaches_it, protocol, destructor_closes,
}

abbrev ops : Ops
ops = record { opens = some 3; loads = λ s. true; attaches = λ s. false }

destructor_closes_example :
    protocol none (
      ((([] ++ (open_skeleton ops new_probe).calls)
          ++ (load ops (open_skeleton ops new_probe).probe).calls)
        ++ (attach ops (load ops (open_skeleton ops new_probe).probe).probe).calls)
      ++ (detach (attach ops (load ops (open_skeleton ops new_probe).probe).probe).probe).1)
    ≡ some none
destructor_closes_example =
    (destructor_closes (attach ops (load ops (open_skeleton ops new_probe).probe).probe).probe
      (((([] ++ (open_skeleton ops new_probe).calls)
          ++ (load ops (open_skeleton ops new_probe).probe).calls)
        ++ (attach ops (load ops (open_skeleton ops new_probe).probe).probe).calls))
      (attaches_it ops (loads_it ops (opens_it ops starts refl)))).1
