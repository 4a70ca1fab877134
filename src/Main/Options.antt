-- ===== src/Main/Options.antt =====
-- Which command lines the daemon starts with.
use slurm_tracer.Common.{
  ◌≡◌, refl, sym, ap, subst, ◌≢◌, ◌↔◌, ◌∙◌, inl, inr, List, [], ◌∷◌, ◌||◌, some, true, Bool-cases,
}
use slurm_tracer.Text.{Bytes, codes, same}
use slurm_tracer.Text.Laws.{same_iff}
use slurm_tracer.Config.{Config}
use slurm_tracer.Config.File.{Printer, Source, loaded, Loaded-cases, load_config_file}
use slurm_tracer.Main.{Parsed, goes_on, fails, exits, throws, config_flag, other_option, parse_args}

-- The command line that names some files, each with its flag.
abbrev pub named : List Bytes → List Bytes
named [] = []
named (path ∷ paths) = config_flag ∷ path ∷ named paths

-- Every file is loaded, and what counts of them, behind a configuration and its path, is the last.
pub data Last (p : Printer) (files : Bytes → Source)
    : Config → Bytes → List Bytes → Config → Bytes → Type 0 where
  here : {config : Config} {path : Bytes} → Last p files config path [] config path
  next :
      {config read last : Config} {before path chosen : Bytes} {paths : List Bytes}
      → load_config_file p (files path) ≡ some (loaded read)
      → Last p files read path paths last chosen
      → Last p files config before (path ∷ paths) last chosen

flag_same : same config_flag config_flag ≡ true
flag_same = (same_iff config_flag config_flag).1 refl

parse_args-named :
    (p : Printer) (files : Bytes → Source) (config last : Config) (before chosen : Bytes)
    (paths : List Bytes)
    → Last p files config before paths last chosen
    → parse_args p files config before (named paths) ≡ goes_on last chosen
unfolding parse_args
parse_args-named p files config last before chosen [] here = refl
parse_args-named p files config last before chosen (path ∷ paths) (next {read = read} e l) =
    rw (flag_same, e, parse_args) (parse_args-named p files read last path chosen paths l)

-- A result is that of a command line that goes on, with a configuration and a path.
abbrev Goes : Config → Bytes → Parsed → Type 0
Goes last chosen (goes_on config path) = (config ≡ last) × (path ≡ chosen)
Goes last chosen fails = ⊥
Goes last chosen exits = ⊥
Goes last chosen throws = ⊥

goes : (last : Config) (chosen : Bytes) (r : Parsed) → r ≡ goes_on last chosen → Goes last chosen r
goes last chosen r h = subst (Goes last chosen) (sym h) (refl, refl)

other_option_ends :
    (arg : Bytes) (last : Config) (chosen : Bytes) → other_option arg ≢ goes_on last chosen
other_option_ends arg last chosen h =
    let g = goes last chosen (other_option arg) h in
    elim (Bool-cases (same arg (codes "-h") || same arg (codes "--help"))) [
      | inl e ↦ rw e at g
      | inr e ↦ rw e at g
    ]

-- An argument that ends the command line without a configuration gives what it gives.
named_only :
    (p : Printer) (files : Bytes → Source) (config last : Config) (before chosen : Bytes)
    (args : List Bytes)
    → parse_args p files config before args ≡ goes_on last chosen
    → (paths : List Bytes) × (args ≡ named paths) × Last p files config before paths last chosen
unfolding parse_args
named_only p files config last before chosen [] h =
    let (same_one, path) = goes last chosen (goes_on config before) h in
    (
      [],
      refl,
      subst (λ c. Last p files config before [] c chosen) same_one
          (subst (λ b. Last p files config before [] config b) path here),
    )
named_only p files config last before chosen (arg ∷ []) h =
    elim (Bool-cases (same arg config_flag)) [
      | inl e ↦ absurd (goes last chosen fails (rw (e, parse_args) at h))
      | inr e ↦ absurd (other_option_ends arg last chosen (rw (e, parse_args) at h))
    ]
named_only p files config last before chosen (arg ∷ path ∷ rest) h =
    elim (Bool-cases (same arg config_flag)) [
      | inl e ↦ elim (Loaded-cases (load_config_file p (files path))) [
        | inl f ↦ absurd (goes last chosen throws (rw (e, f, parse_args) at h))
        | inr (inl (why, f)) ↦ absurd (goes last chosen fails (rw (e, f, parse_args) at h))
        | inr (inr (read, f)) ↦
            let (paths, more, l) =
              named_only p files read last path chosen rest (rw (e, f, parse_args) at h) in
            let flag = (same_iff arg config_flag).0 e in
            (path ∷ paths, ((λ i. flag i ∷ path ∷ more i)), next f l)
      ]
      | inr e ↦ absurd (other_option_ends arg last chosen (rw (e, parse_args) at h))
    ]

-- The daemon goes on from its command line exactly where that is a sequence of `--config` with a file each,
-- which are all loaded; then with the configuration and the path of the last, or of what it began with where
-- there is none. So nothing of an earlier file stays, and any other argument ends the program.
pub parse_args_iff :
    (p : Printer) (files : Bytes → Source) (config last : Config) (before chosen : Bytes)
    (args : List Bytes)
    → parse_args p files config before args ≡ goes_on last chosen
      ↔ ((paths : List Bytes) × (args ≡ named paths) × Last p files config before paths last chosen)
parse_args_iff p files config last before chosen args = (
  named_only p files config last before chosen args,
  λ (paths, e, l).
      ap (parse_args p files config before) e
      ∙ parse_args-named p files config last before chosen paths l,
)
