-- ===== src/BackupRun/Steps.antt =====
-- The steps of `RunBackup` and `execute` of pkg/storage/storage_backup.go.
use backup_server.Base.{
  ℕ, String, str_eq, Bool, false, ◌||◌, Option, none, some, List, [], ◌∷◌, ◌++◌, if◌then◌else◌,
  Dict, put, Result, ok, err, ◌>>=◌, ◌>>◌, check,
}
use backup_server.Base.Bytes.{Bytes, codes}
use backup_server.Paths.{Roots}
use backup_server.Tokens.{SpaceToken, TokenError, CloudToken}
use backup_server.BackupRun.Cloud.{
  Integration, Choice, chosen, none_chosen, panicked, get_integration_cloud,
}
use backup_server.BackupRun.Space.{
  Upload, uploaded, upload_failed, RunError, no_token, no_usage, not_subscribed, no_space,
  upload_error, Round, Outcome, backup_to_space,
}
use backup_server.BackupRun.Prepare.{Source, Params, Disks, prepare_backup_params, check_disk_size}
use backup_server.BackupRun.App.{
  Stop, crashed, waits, Wait, AppBackup, ready_for_backup_app, format_app_backup_files,
}
use backup_server.BackupRun.Report.{Snapshot, World, Report, Attempt}

-- The types of a snapshot, as GetSnapshotType names them.
pub data SnapshotKind : Type 0 where
  fully incremental : SnapshotKind

-- ParseSnapshotType
abbrev pub parse_snapshot_type : SnapshotKind → ℕ
parse_snapshot_type fully = 0
parse_snapshot_type incremental = 1

-- What the world outside answers during one run. A text in an error is its message.
pub record Answers : Type 0 where
  pub gets_snapshot : Bool
  pub gets_backup : Bool
  pub pvc : Result Bytes Roots
  pub kind_of_snapshot : Result Bytes SnapshotKind
  pub auth_token : Result Bytes (Unit {0})
  pub password : Result Bytes Bytes
  pub disks : Disks
  pub runs : Result Bytes (Unit {0})
  pub app_json : Bytes
  pub starts_app : Result Bytes (Unit {0})
  pub waits_for_app : List Wait
  pub replace : Bytes → Bool → Result Bytes (Unit {0})
  pub accounts : Option (List Bytes)
  pub token_of : Bytes → Option CloudToken
  pub no_cloud_token : Bytes
  pub upload_with : CloudToken → Upload
  pub upload_to_disk : Upload
  pub round : ℕ → Round
  pub cache : Dict SpaceToken
  pub token_text : TokenError → Bytes
  pub usage_text : Bytes
  pub stats : Option ℕ
  pub to_json : Bytes → Bytes → Bytes
  pub attempt : ℕ → Attempt

-- The backup and the owner of the run, with the name of its location, by which the space knows it.
pub record Job : Type 0 where
  pub backup : String
  pub owner : Bytes
  pub account : String
  pub snapshot : String
  pub source : Source

-- What the run has got ready when it starts to upload.
pub record Ready : Type 0 where
  pub kind : SnapshotKind
  pub params : Params
  pub size : ℕ
  pub app : Option AppBackup

abbrev pub is_app : Job → Bool
is_app j = str_eq j.source.kind "app"

-- The steps that come before the snapshot is set to run.
unfoldable pub checked : Answers → Job → Snapshot → Result Bytes (SnapshotKind × Params × Roots × ℕ)
unfolding prepare_backup_params check_disk_size
checked a j s = do
  roots ← a.pvc
  check (str_eq s.phase "Pending") (codes "snapshot phase invalid")
  kind ← a.kind_of_snapshot
  params ← prepare_backup_params roots j.source a.auth_token a.password
  size ← check_disk_size a.disks j.source.kind params
  ok (kind, params, roots, size)

-- prepareForRun: the owner is told, whether or not the phase is stored.
abbrev pub running : Job → Snapshot → World → World
running j s w = record w {
  snapshots =
      put w.snapshots j.snapshot
        (record s { phase = "Running"; message = codes "Backup start running" });
}

unfoldable pub prepare_for_run : Answers → Job → Snapshot → World → Result Bytes (Unit {0}) × World
prepare_for_run a j s w =
    let told = record w { sent = w.sent ++ record { status = "Running"; text = [] } ∷ [] } in
    elim a.runs [ err e ↦ (err e, told) | ok u ↦ (ok tt, running j s told) ]

-- The steps behind it, which are those of an app.
unfoldable pub app_steps : Answers → Job → Roots → Result Stop (Option AppBackup)
unfolding ready_for_backup_app format_app_backup_files
app_steps a j roots = ready_for_backup_app (is_app j) a.starts_app a.waits_for_app >>= λ files.
    format_app_backup_files a.replace roots.userspace j.owner (is_app j) files

abbrev pub run_error : Answers → RunError → Bytes
run_error a (no_token e) = a.token_text e
run_error a no_usage = a.usage_text
run_error a not_subscribed = codes "You are not currently subscribed to Olares Space."
run_error a no_space = codes "Insufficient storage in Olares Space."
run_error a (upload_error e) = e

abbrev pub or_zero : Option ℕ → ℕ
or_zero none = 0
or_zero (some n) = n

abbrev pub reported : Answers → Upload → Report
reported a (uploaded s storage) = record {
  output = some s;
  storage = some storage;
  total_size = or_zero a.stats;
  error = none;
}
reported a (upload_failed e) = record {
  output = none;
  storage = none;
  total_size = 0;
  error = some e;
}

abbrev pub of_error : Bytes → Report
of_error e = record { output = none; storage = none; total_size = 0; error = some e }

abbrev pub of_space : Answers → Option Outcome → Result Stop Report
of_space a none = err waits
of_space a (some (ok (s, storage))) = ok (reported a (uploaded s storage))
of_space a (some (err e)) = ok (of_error (run_error a e))

abbrev pub unchanged : Integration
unchanged = record { changed = false; name = []; endpoint = [] }

-- Without a token for S3 the message of the error reads a field of the nil token.
abbrev pub of_choice : Answers → String → Choice → Result Stop (Report × Integration)
of_choice a kind (chosen t i) = ok (reported a (a.upload_with t), i)
of_choice a kind panicked = err crashed
of_choice a kind none_chosen =
    if str_eq kind "awss3"
    then err crashed
    else ok (of_error (codes "get tencentcloud token error: " ++ a.no_cloud_token), unchanged)

-- execute, with at most `fuel` rounds of a backup to the space. A location of another kind leaves
-- the service nil.
unfoldable pub execute : Answers → Job → ℕ → Ready → Result Stop (Report × Integration)
unfolding backup_to_space get_integration_cloud
execute a j fuel r =
    let l = r.params.location in
    if str_eq l.kind "space"
    then of_space a (backup_to_space j.account r.size a.round fuel a.cache).ended
      >>= (λ p. ok (p, unchanged))
    else if str_eq l.kind "awss3" || str_eq l.kind "tencentcloud"
    then of_choice a l.kind (get_integration_cloud a.accounts a.token_of l unchanged)
    else if str_eq l.kind "filesystem"
    then ok (reported a a.upload_to_disk, unchanged)
    else err crashed
