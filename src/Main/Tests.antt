-- ===== src/Main/Tests.antt =====
-- Two files on a command line, and a message that is longer than the buffer.
use slurm_tracer.Common.{◌≡◌, refl, [], ◌∷◌, ◌++◌, some, length, suc, ℕ, zero}
use slurm_tracer.Text.{Bytes, codes}
use slurm_tracer.Dict.{retain}
use slurm_tracer.Config.{default_config}
use slurm_tracer.Config.File.{
  Printer, Source, parsed, obj, end, load_config_file, load_root, load_sections, drop_disabled,
}
use slurm_tracer.Main.{parse_args, goes_on, info, buffer, chomp, libbpf_print}
use slurm_tracer.Main.Options.{here, next, parse_args_iff}
use slurm_tracer.Main.Print.{libbpf_print_lem}

abbrev printer : Printer
printer = record { dump = λ v. []; float_text = λ x. [] }

-- A file that holds an empty object.
abbrev files : Bytes → Source
files path = parsed (obj end)

parse_args_example :
    parse_args printer files default_config []
      (codes "--config" ∷ codes "a" ∷ codes "--config" ∷ codes "b" ∷ [])
    ≡ goes_on default_config (codes "b")
unfolding load_config_file load_root load_sections drop_disabled retain
parse_args_example =
    (parse_args_iff printer files default_config default_config [] (codes "b")
        (codes "--config" ∷ codes "a" ∷ codes "--config" ∷ codes "b" ∷ [])).1
      (codes "a" ∷ codes "b" ∷ [], refl, next refl (next refl here))

-- A text of a length, of one byte's value.
abbrev letters : ℕ → Bytes
letters zero = []
letters (suc n) = 97 ∷ letters n

length-letters : (n : ℕ) → length (letters n) ≡ n
length-letters zero = refl
length-letters (suc n) = λ i. suc (length-letters n i)

libbpf_print_example :
    libbpf_print (1 ∷ 2 ∷ 3 ∷ 4 ∷ []) info (some (letters 1_026))
    ≡ some (info, codes "libbpf: " ++ chomp (buffer (letters 1_026) ++ (1 ∷ 2 ∷ [])))
libbpf_print_example =
    (libbpf_print_lem (1 ∷ 2 ∷ 3 ∷ 4 ∷ []) (letters 1_026) info (λ e. cc) (λ e. cc)).1 2
      (length-letters 1_026)
