-- ===== src/PluginLoader/Tests.antt =====
-- Two instances of one plugin, one that fails, and an unload.
use slurm_tracer.Common.{refl, [], ◌∷◌, ◌++◌, List, some}
use slurm_tracer.Text.{codes, same, before}
use slurm_tracer.Dict.{text_key, lookup, insert}
use slurm_tracer.PluginLoader.{
  Linker, Registry, PluginLoader, DlCall, new_loader, load_probe, unload_probe, open_plugin, create,
  Loaded,
}
use slurm_tracer.PluginLoader.References.{
  IsBalanced, Reach, starts, loads_probe, unloads_probe, Reach-IsBalanced,
}

abbrev oom_registry : Registry
oom_registry = (codes "oom", λ config. some 70) ∷ []

-- Every path opens with handle 5, and registers `oom`.
abbrev oom_only : Linker
oom_only = record { dlopen = λ path. some 5; entry = λ handle symbol. some oom_registry }

abbrev l0 : PluginLoader
l0 = new_loader (codes "/p")

abbrev l1 : Loaded
l1 = load_probe oom_only l0 (codes "a") (codes "oom") []

abbrev l2 : Loaded
l2 = load_probe oom_only l1.loader (codes "b") (codes "oom") []

abbrev l3 : Loaded
l3 = load_probe oom_only l2.loader (codes "c") (codes "cpu") []

abbrev l4 : PluginLoader × List DlCall
l4 = unload_probe l3.loader (codes "a")

reached : Reach (codes "/p") l4.0 ((([] ++ l1.calls) ++ l2.calls) ++ l3.calls ++ l4.1)
unfolding new_loader load_probe lookup insert open_plugin create same before
reached = unloads_probe (codes "a") (
    loads_probe oom_only (codes "c") (codes "cpu") []
      (loads_probe oom_only (codes "b") (codes "oom") []
        (loads_probe oom_only (codes "a") (codes "oom") [] starts refl) refl)
      refl)

Reach-IsBalanced_example : IsBalanced ((([] ++ l1.calls) ++ l2.calls) ++ l3.calls ++ l4.1) l4.0
Reach-IsBalanced_example =
    Reach-IsBalanced (codes "/p") l4.0 ((([] ++ l1.calls) ++ l2.calls) ++ l3.calls ++ l4.1) reached
