-- ===== src/PluginLoader.antt =====
-- PluginLoader of src/core/plugin_loader.h and plugin_loader.cpp, and Registry of src/core/registry.h. A
-- component is named by its address, and a handle of dlopen by a number. The state is returned with the
-- calls of dlopen that succeed and of dlclose, in order.
pub mod References
pub mod Tests
use slurm_tracer.Common.{ℕ, List, [], ◌∷◌, ◌++◌, Option, none, some}
use slurm_tracer.Text.{Bytes, codes}
use slurm_tracer.Dict.{Dict, text_key, lookup, insert, emplace, erase}
use slurm_tracer.Config.{ComponentConfig}

-- `factories_`: a factory gives a component, or none where it rejects its settings.
abbrev pub Registry : Type 0
Registry = Dict Bytes (ComponentConfig → Option ℕ)

unfoldable pub add : Registry → Bytes → (ComponentConfig → Option ℕ) → Registry
add r name factory = emplace name factory r

unfoldable pub create : Registry → Bytes → ComponentConfig → Option ℕ
create r name config = elim (lookup name r) [ none ↦ none | some factory ↦ factory config ]

-- What the dynamic linker does during one call: the handle that dlopen gives for a path, and the registry
-- as the entry point that dlsym finds in it leaves it, for the name of a symbol.
pub record Linker : Type 0 where
  pub dlopen : Bytes → Option ℕ
  pub entry : ℕ → Bytes → Option Registry

pub data DlCall : Type 0 where
  opened closed : ℕ → DlCall

unfoldable pub plugin_path : Bytes → Bytes → Bytes → Bytes
plugin_path dir kind name =
    dir
    ++ (codes "/" ++ (kind ++ (codes "s/libst_" ++ (kind ++ (codes "_" ++ (name ++ codes ".so"))))))

-- A handle that gave no component is closed again.
abbrev pub opened_with : ℕ → Option ℕ → Option (ℕ × ℕ) × List DlCall
opened_with handle none = (none, opened handle ∷ closed handle ∷ [])
opened_with handle (some component) = (some (component, handle), opened handle ∷ [])

-- A plugin that exports no entry point or registers something else gives no component.
abbrev pub component_of : Option Registry → Bytes → ComponentConfig → Option ℕ
component_of none plugin config = none
component_of (some registry) plugin config = create registry plugin config

unfoldable pub open_plugin :
    Linker → Bytes → Bytes → Bytes → ComponentConfig → Option (ℕ × ℕ) × List DlCall
open_plugin ld path symbol plugin config = elim (ld.dlopen path) [
  | none ↦ (none, [])
  | some handle ↦ opened_with handle (component_of (ld.entry handle symbol) plugin config)
]

unfoldable pub close_handle : Dict Bytes ℕ → Bytes → Dict Bytes ℕ × List DlCall
close_handle handles id = elim (lookup id handles) [
  | none ↦ (handles, [])
  | some handle ↦ (erase id handles, closed handle ∷ [])
]

pub record PluginLoader : Type 0 where
  pub plugin_dir : Bytes
  pub probe_handles : Dict Bytes ℕ
  pub sink_handles : Dict Bytes ℕ

unfoldable pub new_loader : Bytes → PluginLoader
new_loader dir = record { plugin_dir = dir; probe_handles = []; sink_handles = [] }

-- What a call gives: a component, the loader, and the calls of the linker.
pub record Loaded : Type 0 where
  pub component : Option ℕ
  pub loader : PluginLoader
  pub calls : List DlCall

unfoldable pub load_probe : Linker → PluginLoader → Bytes → Bytes → ComponentConfig → Loaded
load_probe ld l id plugin config =
    let (found, calls) =
      open_plugin ld (plugin_path l.plugin_dir (codes "probe") plugin) (codes "st_register_probe")
        plugin config in
    elim found [
      | none ↦ record { component = none; loader = l; calls = calls }
      | some (probe, handle) ↦ record {
        component = some probe;
        loader = record l { probe_handles = insert id handle l.probe_handles };
        calls = calls;
      }
    ]

unfoldable pub load_sink : Linker → PluginLoader → Bytes → Bytes → ComponentConfig → Loaded
load_sink ld l id plugin config =
    let (found, calls) =
      open_plugin ld (plugin_path l.plugin_dir (codes "sink") plugin) (codes "st_register_sink")
        plugin config in
    elim found [
      | none ↦ record { component = none; loader = l; calls = calls }
      | some (sink, handle) ↦ record {
        component = some sink;
        loader = record l { sink_handles = insert id handle l.sink_handles };
        calls = calls;
      }
    ]

unfoldable pub unload_probe : PluginLoader → Bytes → PluginLoader × List DlCall
unload_probe l id =
    let (handles, calls) = close_handle l.probe_handles id in
    (record l { probe_handles = handles }, calls)

unfoldable pub unload_sink : PluginLoader → Bytes → PluginLoader × List DlCall
unload_sink l id =
    let (handles, calls) = close_handle l.sink_handles id in
    (record l { sink_handles = handles }, calls)
