-- ===== src/Snapshots/Types.antt =====
-- The objects that the API server stores, with the fields that the handler and the controller look
-- at, and `CheckSnapshotNotifyState` of pkg/handlers/helper.go.
use backup_server.Base.{ℕ, String, str_eq, Bool, Option, if◌then◌else◌, Dict, ◌||◌}
use backup_server.Base.Int.{ℤ}
use backup_server.Worker.Types.{WorkerPool}

-- SnapshotNotifyState
pub record NotifyState : Type 0 where
  pub prepare : Bool
  pub progress : Bool
  pub result : Bool

-- Spec.Extra, by what its entry "push" holds: there is no map, no entry, no JSON of the type, the
-- JSON `null`, or a state.
pub data Extra : Type 0 where
  nil no_push malformed null_push : Extra
  push : NotifyState → Extra

pub record Snapshot : Type 0 where
  pub name : String
  pub created : ℕ
  pub backup_id : String
  pub phase : String
  pub message : String
  pub progress : ℤ
  pub start_at : ℕ
  pub end_at : Option ℕ
  pub extra : Extra

-- Of a Backup: its name, its owner, and the location that GetBackupLocationConfig reads.
pub record Backup : Type 0 where
  pub name : String
  pub owner : String
  pub location : Option String

-- What the controller reads and writes: the stored objects and the worker pools.
pub record World : Type 0 where
  pub snapshots : Dict Snapshot
  pub backups : Dict Backup
  pub pools : WorkerPool

-- The phases.
abbrev pub pending : String
pending = "Pending"

abbrev pub running : String
running = "Running"

abbrev pub failed : String
failed = "Failed"

abbrev pub completed : String
completed = "Completed"

abbrev pub canceled : String
canceled = "Canceled"

abbrev pub rejected : String
rejected = "Rejected"

abbrev pub is_final : String → Bool
is_final phase =
    str_eq phase completed || str_eq phase failed || str_eq phase canceled || str_eq phase rejected

-- A state, an error, or a nil pointer that is followed.
pub data Check : Type 0 where
  known : Bool → Check
  unknown : Check
  crashes : Check

abbrev field_of : String → NotifyState → Check
field_of field s =
    if str_eq field "progress"
    then known s.progress
    else if str_eq field "result"
    then known s.result
    else if str_eq field "prepare"
    then known s.prepare
    else unknown

unfoldable pub check_notify_state : Extra → String → Check
check_notify_state nil field = unknown
check_notify_state no_push field = unknown
check_notify_state malformed field = unknown
check_notify_state null_push field =
    if str_eq field "progress" || str_eq field "result" || str_eq field "prepare"
    then crashes
    else unknown
check_notify_state (push s) field = field_of field s
