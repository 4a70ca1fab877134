-- ===== src/Main.antt =====
-- src/core/main.cpp: the command line, and the messages of libbpf.
pub mod Options
pub mod Print
pub mod Program
pub mod Tests
use slurm_tracer.Common.{
  ℕ, suc, Bool, true, false, List, [], ◌∷◌, ◌++◌, Option, none, some, leb, ◌||◌, ◌==◌,
  if◌then◌else◌, length, take,
}
use slurm_tracer.Text.{Bytes, codes, same}
use slurm_tracer.Config.{Config}
use slurm_tracer.Config.File.{Printer, Source, Loaded, loaded, refused, load_config_file}

-- What `parse_args` comes to: true with the configuration and its path; false; an exit with success; or an
-- exception out of the loading of a file.
pub data Parsed : Type 0 where
  goes_on : Config → Bytes → Parsed
  fails exits throws : Parsed

abbrev pub config_flag : Bytes
config_flag = codes "--config"

abbrev pub other_option : Bytes → Parsed
other_option arg = if same arg (codes "-h") || same arg (codes "--help") then exits else fails

-- The arguments are those after the program's name; a file is looked up by its path.
unfoldable pub parse_args : Printer → (Bytes → Source) → Config → Bytes → List Bytes → Parsed
parse_args p files config config_path [] = goes_on config config_path
parse_args p files config config_path (arg ∷ []) =
    if same arg config_flag then fails else other_option arg
parse_args p files config config_path (arg ∷ path ∷ rest) =
    if same arg config_flag
    then (elim (load_config_file p (files path)) [
      | none ↦ throws
      | some (refused error) ↦ fails
      | some (loaded config') ↦ parse_args p files config' path rest
    ])
    else other_option arg

pub data Level : Type 0 where
  warn info debug : Level

abbrev pub buffer_size : ℕ
buffer_size = 1_024

-- vsnprintf: the bytes that it leaves in the buffer, of a text.
abbrev pub buffer : Bytes → Bytes
buffer text = take 1_023 text ++ 0 ∷ []

-- `msg.remove_suffix(1)` where the last byte is a newline.
unfoldable pub chomp : Bytes → Bytes
chomp [] = []
chomp (c ∷ []) = if c == 10 then [] else c ∷ []
chomp (c ∷ d ∷ s) = c ∷ chomp (d ∷ s)

abbrev pub severity : Level → Level
severity warn = warn
severity level = info

-- The line that is logged, if one is. Of the formatted text, none where vsnprintf fails, the buffer holds
-- what has room; the view's length is that of the whole text. What stands in memory behind the buffer's
-- written bytes is an argument.
unfoldable pub libbpf_print : Bytes → Level → Option Bytes → Option (Level × Bytes)
unfolding chomp
libbpf_print beyond debug text = none
libbpf_print beyond level none = none
libbpf_print beyond level (some text) =
    let n = length text in
    if n == 0
    then none
    else some (severity level, codes "libbpf: " ++ chomp (take n (buffer text ++ beyond)))
