-- ===== src/Attribution/Files.antt =====
-- What the attribution code asks of the operating system: stat, opendir with readdir, reading a text
-- file by lines, and glob. These are parameters of the model.
use slurm_tracer.Common.{ℕ, Bool, false, List, Option, none, some}
use slurm_tracer.Text.{Bytes}
use slurm_tracer.Clock.{Timespec}

pub record Stat : Type 0 where
  pub is_directory : Bool
  pub ino : ℕ
  pub ctim : Timespec

-- `d_type`, as far as the code tells its values apart.
pub data DirentType : Type 0 where
  dt_dir dt_unknown dt_other : DirentType

pub record Dirent : Type 0 where
  pub name : Bytes
  pub d_type : DirentType

-- `none` is a call that fails; the paths that `glob` finds stand in its order.
pub record FileSystem : Type 0 where
  pub stat : Bytes → Option Stat
  pub read_dir : Bytes → Option (List Dirent)
  pub read_lines : Bytes → Option (List Bytes)
  pub glob : Bytes → Option (List Bytes)

unfoldable pub is_dir : FileSystem → Bytes → Bool
is_dir fs path = elim (fs.stat path) [ none ↦ false | some st ↦ st.is_directory ]
