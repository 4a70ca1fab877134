-- ===== src/Daemon/Tests.antt =====
-- A daemon with three probes, of which libbpf refuses one while another leaves.
use mathlib.Core.Option.{some-injective}
use slurm_tracer.Common.{
  ℕ, ◌≡◌, ◌≢◌, refl, subst, inl, inr, [], ◌∷◌, ◌==◌, not, true, none, some, List, arith, All,
}
use slurm_tracer.Text.{codes, same}
use slurm_tracer.Dict.{text_key, lookup}
use slurm_tracer.Config.{default_config, plugin_of, get}
use slurm_tracer.EventLoop.{Binding}
use slurm_tracer.PluginLoader.{load_probe, open_plugin, create}
use slurm_tracer.Daemon.{Daemon, Machine, add_probe, remove_probe}
use slurm_tracer.Daemon.Polled.{IsPolled, remove_probe-IsPolled, add_probe-IsPolled}

abbrev machine : Machine
machine = record {
  linker = record {
    dlopen = λ path. some 5;
    entry = λ handle symbol. some ((codes "oom", λ config. some 4) ∷ []);
  };
  bpf = record { ring_fd = λ probe. some probe; arms = λ rb fd. true };
  opens = λ probe config. true;
  loads = λ probe. true;
  attaches = λ probe. true;
  new_emitter = 40;
}

abbrev refusing : Machine
refusing = record machine {
  bpf = record {
    ring_fd = λ probe. some probe;
    arms = λ rb fd. elim fd [ none ↦ true | some x ↦ not (x == 2) ];
  };
}

abbrev bindings_of_three : List Binding
bindings_of_three =
    record { probe = 1; out = 10 }
    ∷ record { probe = 2; out = 20 }
    ∷ record { probe = 3; out = 30 }
    ∷ []

abbrev three : Daemon
three = record {
  config = default_config;
  config_path = [];
  cgroup_watcher = none;
  loader = record {
    plugin_dir = codes "/p";
    probe_handles = (codes "a", 5) ∷ (codes "b", 5) ∷ (codes "c", 5) ∷ [];
    sink_handles = [];
  };
  sinks = [];
  probes =
      record { id = codes "a"; probe = 1; emitter = 10 }
      ∷ record { id = codes "b"; probe = 2; emitter = 20 }
      ∷ record { id = codes "c"; probe = 3; emitter = 30 }
      ∷ [];
  pipeline = none;
  loop = record { rb = some bindings_of_three; bindings = bindings_of_three };
}

three-IsPolled : IsPolled three
three-IsPolled = record {
  distinct = (
    ((λ e. omega (arith, e)), ((λ e. omega (arith, e)), tt)),
    (((λ e. omega (arith, e)), tt), (tt, tt)),
  );
  bound = (inl refl, (inr (inl refl), (inr (inr (inl refl)), tt)));
}

remove_probe-IsPolled_example : IsPolled (remove_probe refusing three (codes "a")).0
remove_probe-IsPolled_example = remove_probe-IsPolled refusing three (codes "a") three-IsPolled

four_is_fresh :
    (c : ℕ)
    → (load_probe machine.linker three.loader
        (codes "oom")
        (plugin_of (codes "oom") [])
        []).component
      ≡ some c
    → (machine.bpf.ring_fd c ≢ none) × All (λ q. q.probe ≢ c) three.probes
unfolding load_probe open_plugin create lookup same plugin_of get
four_is_fresh c e = (
  (λ z. cc),
  subst (λ x. All (λ q. q.probe ≢ x) three.probes) (some-injective 4 c e)
      ((λ z. omega (arith, z)), ((λ z. omega (arith, z)), ((λ z. omega (arith, z)), tt))),
)

add_probe-IsPolled_example : IsPolled (add_probe machine three (codes "oom") []).0
add_probe-IsPolled_example =
    add_probe-IsPolled machine three (codes "oom") [] three-IsPolled four_is_fresh
