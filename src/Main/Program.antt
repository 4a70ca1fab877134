-- ===== src/Main/Program.antt =====
-- `main` of src/core/main.cpp: the command line, the start of the daemon, its run, and the exit code.
pub mod Tests
use slurm_tracer.Common.{
  ℕ, suc, sym, ap, subst, ◌∙◌, Bool, true, false, List, [], ◌∷◌, Option, none, some, if◌then◌else◌,
  Option-cases, All, ◌∷◌,
}
use slurm_tracer.Text.{Bytes}
use slurm_tracer.Dict.{text_key}
use slurm_tracer.Attribution.Root.{discover_cgroup_root}
use slurm_tracer.Config.{Config, default_config}
use slurm_tracer.Config.File.{Printer, Source, loaded}
use slurm_tracer.Daemon.{new_daemon}
use slurm_tracer.Daemon.Start.{Startup, Started, start, default_cgroup_conf}
use slurm_tracer.Daemon.Start.Begun.{Begun}
use slurm_tracer.Daemon.Run.{Round, Ended, run}
use slurm_tracer.Daemon.Run.Ends.{Readable}
use slurm_tracer.Main.{goes_on, fails, exits, throws, parse_args}

-- What the surroundings do while the program runs: the files, the start, the rounds of the loop until the
-- signal to stop, and the time of the last flush.
pub record World : Type 0 where
  pub printer : Printer
  pub files : Bytes → Source
  pub startup : Startup
  pub rounds : List Round
  pub at : ℕ

abbrev pub exit_code : Bool → ℕ
exit_code true = 0
exit_code false = 1

abbrev pub code_of : Option Ended → Option ℕ
code_of none = none
code_of (some ended) = some (exit_code ended.success)

-- `none` is fuel run out, or an exception of the JSON parser. Exceptions of plugins are not modelled.
abbrev pub go : World → Option Started → Option ℕ
go w none = none
go w (some st) = if st.ok then code_of (run w.at w.rounds st.daemon) else some 1

-- The exit code.
unfoldable pub main : World → List Bytes → Option ℕ
main w args = elim (parse_args w.printer w.files default_config [] args) [
  | goes_on config config_path ↦ go w (start w.startup (new_daemon config config_path))
  | fails ↦ some 1
  | exits ↦ some 0
  | throws ↦ none
]

-- Whatever file a reload reads.
abbrev Calm : List Round → Type 0
Calm rs = All (λ r. (path : Bytes) → Readable path r.reload) rs
