-- ===== src/Attribution/Root.antt =====
-- `discover_cgroup_root` and `trim` of src/core/attribution/attribution.cpp.
use mathlib.Core.List.{reverse}
use slurm_tracer.Common.{
  ℕ, suc, ◌≡◌, refl, Bool, true, false, not, ◌&&◌, ◌||◌, List, [], ◌∷◌, ◌++◌, Option, none, some,
  arith, ◌==◌, if◌then◌else◌, take, drop,
}
use slurm_tracer.Text.{Bytes, codes, same, is_empty, find, lower}
use slurm_tracer.Attribution.Files.{FileSystem, is_dir}

abbrev pub is_blank : ℕ → Bool
is_blank c = c == b' ' || c == b'\t' || c == b'\r' || c == b'\n'

unfoldable pub skip_blanks : Bytes → Bytes
skip_blanks [] = []
skip_blanks (c ∷ s) = if is_blank c then skip_blanks s else c ∷ s

unfoldable pub trim : Bytes → Bytes
unfolding skip_blanks
trim s = reverse (skip_blanks (reverse (skip_blanks s)))

pub record Layout : Type 0 where
  pub mountpoint : Bytes
  pub ignore_systemd : Bool

abbrev pub is_comment : Bytes → Bool
is_comment [] = true
is_comment (c ∷ s) = c == b'#'

abbrev pub set_option : Bytes → Bytes → Layout → Layout
set_option key value l =
    if same key (codes "cgroupmountpoint") && not (is_empty value)
    then record l { mountpoint = value }
    else if same key (codes "ignoresystemd")
    then record l {
      ignore_systemd =
          same value (codes "yes") || same value (codes "Yes") || same value (codes "YES");
    }
    else l

-- One round of the loop over the lines of cgroup.conf.
unfoldable pub read_option : Layout → Bytes → Layout
read_option l line =
    let t = trim line in
    if is_comment t then l else (elim (find b'=' t) [
      | none ↦ l
      | some eq ↦ set_option (lower (trim (take eq t))) (trim (drop (suc eq) t)) l
    ])

unfoldable pub read_options : Layout → List Bytes → Layout
read_options l [] = l
read_options l (line ∷ lines) = read_options (read_option l line) lines

abbrev pub default_layout : Layout
default_layout = record { mountpoint = codes "/sys/fs/cgroup"; ignore_systemd = false }

unfoldable pub read_conf : FileSystem → Bytes → Layout
unfolding read_options read_option
read_conf fs cgroup_conf = elim (fs.read_lines cgroup_conf) [
  | none ↦ default_layout
  | some lines ↦ read_options default_layout lines
]

abbrev pub patterns : Bytes → List Bytes
patterns mountpoint =
    (mountpoint ++ codes "/system.slice/*slurmstepd*.scope")
    ∷ (mountpoint ++ codes "/*.slice/*slurmstepd*.scope")
    ∷ (mountpoint ++ codes "/slurm")
    ∷ []

abbrev pub first : Option (List Bytes) → Option Bytes
first none = none
first (some []) = none
first (some (p ∷ ps)) = some p

unfoldable pub try_patterns : FileSystem → List Bytes → Option Bytes
try_patterns fs [] = none
try_patterns fs (p ∷ ps) = elim (first (fs.glob p)) [
  | some found ↦ some found
  | none ↦ try_patterns fs ps
]

unfoldable pub discover_cgroup_root : FileSystem → Bytes → Bytes → Option Bytes
unfolding read_conf try_patterns
discover_cgroup_root fs override_path cgroup_conf =
    if not (is_empty override_path)
    then if is_dir fs override_path then some override_path else none
    else try_patterns fs (patterns (read_conf fs cgroup_conf).mountpoint)

-- A configured root is taken exactly when it is a directory, and nothing else is taken in its place.
pub discover_override_iff :
    (fs : FileSystem) (c : ℕ) (s root conf : Bytes)
    → (discover_cgroup_root fs (c ∷ s) conf ≡ some root → (root ≡ c ∷ s) × (is_dir fs root ≡ true))
      × (is_dir fs (c ∷ s) ≡ true → discover_cgroup_root fs (c ∷ s) conf ≡ some (c ∷ s))
unfolding discover_cgroup_root
discover_override_iff fs c s root conf = (λ h. ground arith, λ h. ground arith)

lower_case_conf :
    read_option default_layout (codes "  CgroupMountpoint = /cg  ")
    ≡ record { mountpoint = codes "/cg"; ignore_systemd = false }
unfolding read_option trim same find lower
lower_case_conf = refl

commented_conf : read_option default_layout (codes "# CgroupMountpoint=/cg") ≡ default_layout
unfolding read_option trim
commented_conf = refl
