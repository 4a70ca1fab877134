-- ===== src/Record.antt =====
-- src/core/record/record.h: the one record type of every probe. A `value` is a double in the source; the
-- probes write only whole numbers from 0 to 255, and it is a natural number here.
pub mod Json
use slurm_tracer.Common.{ℕ, List, [], Option, none}
use slurm_tracer.Text.{Bytes}

pub record Record : Type 0 where
  pub ts_ns : ℕ
  pub node : Bytes
  pub cluster : Bytes
  pub probe : Bytes
  pub cgroup_id : ℕ
  pub job_id : Option ℕ
  pub step_id : Option Bytes
  pub task_id : Option ℕ
  pub uid : Option ℕ
  pub user : Option Bytes
  pub account : Option Bytes
  pub partition : Option Bytes
  pub event_type : Bytes
  pub pid : ℕ
  pub tid : ℕ
  pub comm : Bytes
  pub metric : Bytes
  pub value : ℕ
  pub unit : Bytes
  pub attrs : List (Bytes × Bytes)

-- `Record r;`
abbrev pub new_record : Record
new_record = record {
  ts_ns = 0;
  node = [];
  cluster = [];
  probe = [];
  cgroup_id = 0;
  job_id = none;
  step_id = none;
  task_id = none;
  uid = none;
  user = none;
  account = none;
  partition = none;
  event_type = [];
  pid = 0;
  tid = 0;
  comm = [];
  metric = [];
  value = 0;
  unit = [];
  attrs = [];
}
