-- ===== src/RestoreRun/Whole.antt =====
-- `RunRestore` of pkg/storage/storage_restore.go.
use backup_server.Base.{
  ℕ, String, str_eq, Bool, Option, none, some, List, [], ◌∷◌, ◌++◌, if◌then◌else◌, Dict, get, put,
  Result, ok, err, ◌>>=◌, ◌>>◌,
}
use backup_server.Base.Bytes.{Bytes}
use backup_server.Paths.{Roots}
use backup_server.Tokens.{SpaceToken, TokenError, CloudToken}
use backup_server.BackupRun.App.{Stop, failed, crashed, waits}
use backup_server.BackupRun.Prepare.{Source, Disks}
use backup_server.RestoreRun.Report.{
  Restore, World, Output, Report, Attempt, Verdict, update_restore_result,
}
use backup_server.RestoreRun.Prepare.{
  RestoreType, Services, Params, lift, prepare_restore_params, check_disk_size,
}
use backup_server.RestoreRun.Steps.{
  Download, Round, Wait, FileOp, AppEnd, restore_from_space, execute, remove_restore_files,
  rename_restore_directory, ready_for_restore_app,
}

-- What the world outside answers during one run.
pub record Answers : Type 0 where
  pub pvc : Result Bytes Roots
  pub services : Services
  pub disks : Disks
  pub runs : Result Bytes (Unit {0})
  pub now : ℕ
  pub round : ℕ → Round
  pub cache : Dict SpaceToken
  pub token_text : TokenError → Bytes
  pub cloud_token : Result Bytes CloudToken
  pub download_with : CloudToken → Download
  pub download_from_disk : Download
  pub starts_app : Result Bytes (Unit {0})
  pub waits_for_app : List Wait
  pub attempt : ℕ → Attempt

-- The restore of the run: its kind, what is read from its type, which is `none` where it is
-- invalid, and the backup of its snapshot, which is `none` where it or the snapshot is not found.
pub record Job : Type 0 where
  pub restore : String
  pub kind : String
  pub account : String
  pub restore_type : Option RestoreType
  pub source : Option Source

-- How a run comes to an end: it is not begun, it stops at a nil pointer or has not ended, or the
-- poll that stores its result has come to a verdict.
pub data Finish : Type 0 where
  not_begun : Finish
  stopped : Stop → Finish
  told : Verdict → Finish

pub record Run : Type 0 where
  pub finish : Finish
  pub world : World
  pub files : List FileOp

-- A restore of a URL needs no backup.
abbrev no_source : Source
no_source = record { kind = ""; path = []; locations = [] }

abbrev need_source : RestoreType → Option Source → Option Source
need_source t (some s) = some s
need_source t none = if t.of_snapshot then none else some no_source

-- checkRestoreExists: the type and the backup of the restore, where all that it needs is there.
abbrev with_type : Option RestoreType → Option Source → Option (RestoreType × Source)
with_type none s = none
with_type (some t) s = elim (need_source t s) [ none ↦ none | some b ↦ some (t, b) ]

unfoldable pub check_restore_exists : Job → Option Restore → Option (RestoreType × Source)
check_restore_exists j none = none
check_restore_exists j (some r) = with_type j.restore_type j.source

abbrev pub is_app : Job → Bool
is_app j = str_eq j.kind "app"

abbrev pub of_error : Bytes → Report
of_error e = record { output = none; error = some e; app_status = none }

unfoldable pub checked : Answers → Job → RestoreType → Source → Result Stop Params
unfolding prepare_restore_params check_disk_size
checked a j t s = do
  roots ← lift a.pvc
  p ← prepare_restore_params roots s j.kind t a.services
  lift (check_disk_size a.disks t p)
  ok p

-- prepareForRun: the owner is told, whether or not the phase is stored.
abbrev pub running : ℕ → Restore → Restore
running now r = record r { phase = "Running"; start_at = some now }

unfoldable pub prepare_for_run : Answers → Job → Restore → World → Result Bytes (Unit {0}) × World
prepare_for_run a j r w =
    let told = record w {
      sent = w.sent ++ record { status = "Running"; progress = 0; text = [] } ∷ [];
    } in
    elim a.runs [
      | err e ↦ (err e, told)
      | ok u ↦ (ok tt, record told { restores = put w.restores j.restore (running a.now r) })
    ]

module _ (a : Answers) (j : Job) (fuel polls : ℕ) where
  abbrev pub report : Report → List FileOp → World → Run
  report p files w =
      let (v, x) = update_restore_result j.restore p a.attempt polls w in
      record { finish = told v; world = x; files = files }

  abbrev pub stop_with : Stop → World → Run
  stop_with s w = record { finish = stopped s; world = w; files = [] }

  abbrev pub stop : Stop → World → Run
  stop (failed e) w = report (of_error e) [] w
  stop crashed w = stop_with crashed w
  stop waits w = stop_with waits w

  -- What the end of an app comes to, behind a restore that has given an output.
  abbrev pub after_app : Output → List FileOp → Option AppEnd → World → Run
  after_app o files none w = record { finish = stopped waits; world = w; files = files }
  after_app o files (some (e, status)) w =
      report (record { output = some o; error = e; app_status = status }) files w

  -- Where the restore fails its files are removed, and else they are renamed.
  abbrev pub after_execute : Params → Result Stop Output → World → Run
  after_execute p (err (failed e)) w =
      report (of_error e) (remove_restore_files (is_app j) p.path) w
  after_execute p (err crashed) w = stop_with crashed w
  after_execute p (err waits) w = stop_with waits w
  after_execute p (ok o) w =
      after_app o (rename_restore_directory (is_app j) p.path)
        (ready_for_restore_app (is_app j) a.starts_app a.waits_for_app) w

  unfoldable pub execute_job : Params → Result Stop Output
  unfolding execute restore_from_space
  execute_job p =
      execute p.location (restore_from_space a.token_text j.account a.round fuel 0 a.cache).ended
        a.cloud_token a.download_with a.download_from_disk

  abbrev pub after_running : Params → Result Bytes (Unit {0}) × World → Run
  after_running p (err e, w) = stop (failed e) w
  after_running p (ok u, w) = after_execute p (execute_job p) w

  abbrev pub after_checks : Restore → Result Stop Params → World → Run
  after_checks r (err e) w = stop e w
  after_checks r (ok p) w = after_running p (prepare_for_run a j r w)

  abbrev pub run_found : Option Restore → Option (RestoreType × Source) → World → Run
  run_found none x w = record { finish = not_begun; world = w; files = [] }
  run_found (some r) none w = record { finish = not_begun; world = w; files = [] }
  run_found (some r) (some (t, s)) w = after_checks r (checked a j t s) w

  -- RunRestore, with at most `fuel` rounds of a restore from the space and `polls` attempts to store
  -- the result.
  unfoldable pub run_restore : World → Run
  unfolding check_restore_exists checked prepare_for_run execute_job
  run_restore w = let r = get w.restores j.restore in run_found r (check_restore_exists j r) w
