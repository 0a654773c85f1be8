-- ===== src/BackupRun/Whole.antt =====
-- `RunBackup` of pkg/storage/storage_backup.go.
use backup_server.Base.{
  ℕ, str_eq, ◌&&◌, Bool, true, false, Option, none, some, [], if◌then◌else◌, get, Result, ok, err,
}
use backup_server.Base.Bytes.{Bytes}
use backup_server.Paths.{Roots}
use backup_server.BackupRun.Cloud.{Location, Integration}
use backup_server.BackupRun.Prepare.{Params}
use backup_server.BackupRun.App.{Stop, failed, crashed, waits, AppBackup}
use backup_server.BackupRun.Report.{Snapshot, Backup, World, Run, Report, Verdict}
use backup_server.BackupRun.Storing.{update_backup_result}
use backup_server.BackupRun.Steps.{
  SnapshotKind, parse_snapshot_type, Answers, Job, Ready, is_app, checked, prepare_for_run,
  app_steps, of_error, unchanged, execute,
}

abbrev kind_if : Bool → Result Bytes SnapshotKind → Option ℕ
kind_if true (ok k) = some (parse_snapshot_type k)
kind_if true (err e) = none
kind_if false k = none

abbrev known_kind : Result Bytes Roots → Snapshot → Result Bytes SnapshotKind → Option ℕ
known_kind (ok roots) s k = kind_if (str_eq s.phase "Pending") k
known_kind (err e) s k = none

abbrev no_location : Location
no_location = record { kind = ""; name = []; endpoint = []; path = [] }

-- The fields that the end of the run reads, where it ends with an error before it uploads; its
-- location is then not looked at.
abbrev pub early : Answers → Job → Snapshot → Run
early a j s = record {
  backup = j.backup;
  snapshot = j.snapshot;
  snapshot_type = known_kind a.pvc s a.kind_of_snapshot;
  location = no_location;
  integration = unchanged;
  app_status = if is_app j then some a.app_json else none;
}

abbrev pub late : Answers → Job → Snapshot → Ready → Integration → Run
late a j s r i = record (early a j s) {
  snapshot_type = some (parse_snapshot_type r.kind);
  location = r.params.location;
  integration = i;
}

-- How a run comes to an end: its snapshot or its backup is not read, or there is none, it stops at a nil pointer or has
-- not ended, or the poll that stores its result has come to a verdict.
pub data Finish : Type 0 where
  not_found : Finish
  stopped : Stop → Finish
  told : Verdict → Finish

-- The object of a get, where it is read.
abbrev pub read_object : Bool → Option Snapshot → Option Snapshot
read_object true s = s
read_object false s = none

abbrev pub has_key : Option Backup → Bool
has_key none = false
has_key (some b) = true

module _ (a : Answers) (j : Job) (fuel polls : ℕ) where
  -- What is sent to an app at the end is not looked at.
  abbrev pub report : Run → Report → World → Finish × World
  report r p w = let (v, x) = update_backup_result a.to_json r p a.attempt polls w in (told v, x)

  abbrev pub stop : Snapshot → Stop → World → Finish × World
  stop s (failed e) w = report (early a j s) (of_error e) w
  stop s crashed w = (stopped crashed, w)
  stop s waits w = (stopped waits, w)

  abbrev pub executed :
      Snapshot → Ready → Result Stop (Report × Integration) → World → Finish × World
  executed s r (err e) w = stop s e w
  executed s r (ok (p, i)) w = report (late a j s r i) p w

  abbrev pub with_app :
      Snapshot
      → SnapshotKind × Params × Roots × ℕ
      → Result Stop (Option AppBackup)
      → World
      → Finish × World
  with_app s x (err e) w = stop s e w
  with_app s (kind, params, roots, size) (ok app) w =
      let r : Ready = record { kind = kind; params = params; size = size; app = app } in
      executed s r (execute a j fuel r) w

  abbrev pub after_running :
      Snapshot
      → SnapshotKind × Params × Roots × ℕ
      → Result Bytes (Unit {0}) × World
      → Finish × World
  after_running s x (err e, w) = stop s (failed e) w
  after_running s x (ok u, w) = with_app s x (app_steps a j x.2) w

  abbrev pub after_checks :
      Snapshot → Result Bytes (SnapshotKind × Params × Roots × ℕ) → World → Finish × World
  after_checks s (err e) w = stop s (failed e) w
  after_checks s (ok x) w = after_running s x (prepare_for_run a j s w)

  abbrev pub run_snapshot : Option Snapshot → Bool → World → Finish × World
  run_snapshot none has_backup w = (not_found, w)
  run_snapshot (some s) has_backup w =
      if has_backup then after_checks s (checked a j s) w else (not_found, w)

  -- RunBackup, with at most `fuel` rounds of a backup to the space and `polls` attempts to store
  -- the result.
  unfoldable pub run_backup : World → Finish × World
  unfolding checked prepare_for_run app_steps execute
  run_backup w =
      run_snapshot (read_object a.gets_snapshot (get w.snapshots j.snapshot))
        (a.gets_backup && has_key (get w.backups j.backup)) w
