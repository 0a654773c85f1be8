-- ===== src/BackupRun/Report.antt =====
-- `updateBackupResult` of pkg/storage/storage_backup.go, with `UpdateTotalSize` of
-- pkg/handlers/handler_backup.go.
use backup_server.Base.{ℕ, String, Bool, Option, none, some, List, if◌then◌else◌, Dict, put}
use backup_server.Base.Bytes.{Bytes, codes, contains}
use backup_server.Base.Int.{pos}
use backup_server.CronText.Numbers.{itoa}
use backup_server.BackupRun.Cloud.{Location, Integration}
use backup_server.BackupRun.Space.{Summary}

-- The fields of a Snapshot that the end of a run writes. Spec.Extra is a map, and no map is the
-- empty one.
pub record Snapshot : Type 0 where
  pub backup_id : String
  pub snapshot_type : Option ℕ
  pub snapshot_id : Option Bytes
  pub size : Option ℕ
  pub progress : ℕ
  pub phase : String
  pub message : Bytes
  pub restic_phase : String
  pub restic_message : Option Bytes
  pub end_at : Option ℕ
  pub extra : Dict Bytes

-- The fields of a Backup that the end of a run writes.
pub record Backup : Type 0 where
  pub size : Option ℕ
  pub restore_size : Option ℕ
  pub notified : Bool
  pub extra : Dict Bytes
  pub location : Dict Bytes

-- What is sent to the owner.
pub record Message : Type 0 where
  pub status : String
  pub text : Bytes

pub record World : Type 0 where
  pub snapshots : Dict Snapshot
  pub backups : Dict Backup
  pub sent : List Message

-- The fields of a StorageBackup that stay as they are while its result is stored.
pub record Run : Type 0 where
  pub backup : String
  pub snapshot : String
  pub snapshot_type : Option ℕ
  pub location : Location
  pub integration : Integration
  pub app_status : Option Bytes

-- What the run has come to: the arguments of updateBackupResult.
pub record Report : Type 0 where
  pub output : Option Summary
  pub storage : Option Bytes
  pub total_size : ℕ
  pub error : Option Bytes

-- The answer to a get: the stored object or that there is none, an error of the connection, an error
-- before a request is made, which leaves a nil pointer, or another one, which leaves an object
-- without a name.
pub data Read : Type 0 where
  read unreachable no_client other : Read

-- What the world outside answers while one attempt is made.
pub record Attempt : Type 0 where
  pub done : Bool
  pub now : ℕ
  pub reads_backup : Read
  pub reads_snapshot : Read
  pub writes_backup : Bool
  pub writes_snapshot : Bool

pub data Object (A : Type 0) : Type 0 where
  stored : A → Object A
  missing : Object A
  unreached : Object A
  nil : Object A
  nameless : Object A

abbrev pub object_of : {A : Type 0} → Read → Option A → Object A
object_of read (some a) = stored a
object_of read none = missing
object_of unreachable found = unreached
object_of no_client found = nil
object_of other found = nameless

-- What an attempt comes to: the poll ends with or without an error, goes on, or a nil pointer is followed.
pub data Verdict : Type 0 where
  finished failed_to_write again crashed : Verdict

abbrev pub phase_of : Option Bytes → String
phase_of none = "Completed"
phase_of (some text) = if contains text (codes "canceled") then "Canceled" else "Failed"

abbrev pub with_storage : Option Bytes → Dict Bytes → Dict Bytes
with_storage none extra = extra
with_storage (some json) extra = put extra "storage" json

abbrev pub with_app : Option Bytes → Dict Bytes → Dict Bytes
with_app none extra = extra
with_app (some json) extra = put extra "app_metadata" json

abbrev pub new_extra : Run → Report → Dict Bytes → Dict Bytes
new_extra r p extra =
    with_app r.app_status
      (with_storage p.storage (put extra "backup_total_size" (itoa (pos p.total_size))))

abbrev pub or_old : Option ℕ → Option ℕ → Option ℕ
or_old none old = old
or_old (some t) old = some t

abbrev pub with_error : Run → Bytes → Snapshot → Snapshot
with_error r text s = record s {
  phase = phase_of (some text);
  message = text;
  restic_phase = phase_of (some text);
  snapshot_type = or_old r.snapshot_type s.snapshot_type;
}

abbrev pub with_output : Run → Summary → Snapshot → Snapshot
with_output r o s = record s {
  snapshot_type = r.snapshot_type;
  snapshot_id = some o.snapshot_id;
  size = some o.total_bytes_processed;
  progress = 10000;
  phase = "Completed";
  message = codes "Completed";
  restic_phase = "Completed";
  restic_message = some o.json;
}

-- A result that has neither an error nor an output is a nil pointer.
abbrev pub with_result : Run → Option Bytes → Option Summary → Snapshot → Option Snapshot
with_result r (some text) output s = some (with_error r text s)
with_result r none none s = none
with_result r none (some o) s = some (with_output r o s)

unfoldable pub new_snapshot : Run → Report → ℕ → Snapshot → Option Snapshot
new_snapshot r p now s = elim (with_result r p.error p.output s) [
  | none ↦ none
  | some t ↦ some (record t { end_at = some now; extra = new_extra r p t.extra })
]

abbrev pub text_of : Option Bytes → Bytes
text_of none = codes "Completed"
text_of (some text) = text

abbrev pub message_of : Report → Message
message_of p = record { status = phase_of p.error; text = text_of p.error }
