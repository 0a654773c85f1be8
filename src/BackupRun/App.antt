-- ===== src/BackupRun/App.antt =====
-- The backup of an app: `readyForBackupApp` and `formatAppBackupFiles` of
-- pkg/storage/storage_backup.go.
use backup_server.Base.{
  Bool, true, false, not, Option, none, some, List, [], ◌∷◌, ◌++◌, if◌then◌else◌, Result, ok, err,
  ◌>>=◌, ◌>>◌,
}
use backup_server.Base.Bytes.{Bytes, codes, has_prefix, trim_prefix}
use backup_server.Paths.{path_join}

-- The files that an app names.
pub record AppFiles : Type 0 where
  pub entry_files : List Bytes
  pub pg_files : List Bytes
  pub metadata : Bytes

-- What the app answers at a tick: an error, an answer without data, or a status.
pub data Status : Type 0 where
  not_given : Bytes → Status
  no_data : Status
  preparing : Status
  finish : AppFiles → Status
  other : Status

-- What happens while the run waits: a tick, or the end of its context.
pub data Wait : Type 0 where
  tick : Status → Wait
  ended : Wait

-- Why a run stops: with an error, at a nil pointer, or not yet.
pub data Stop : Type 0 where
  failed : Bytes → Stop
  crashed : Stop
  waits : Stop

-- TrimArrayPrefix: what does not have the prefix is left out.
unfoldable pub trim_array_prefix : List Bytes → Bytes → List Bytes
trim_array_prefix [] prefix = []
trim_array_prefix (v ∷ l) prefix =
    let rest = trim_array_prefix l prefix in
    if has_prefix v prefix then trim_prefix v prefix ∷ rest else rest

abbrev pub trimmed : AppFiles → AppFiles
trimmed f = record f {
  entry_files = trim_array_prefix f.entry_files (codes "/olares");
  pg_files = trim_array_prefix f.pg_files (codes "/olares");
}

-- The loop. At the end of the context it asks an error that is nil for its kind, so it gives no
-- error, and no files.
unfoldable pub wait_for_app : List Wait → Result Stop (Option AppFiles)
wait_for_app [] = err waits
wait_for_app (ended ∷ l) = ok none
wait_for_app (tick (not_given e) ∷ l) = err (failed (codes "get app backup status error: " ++ e))
wait_for_app (tick no_data ∷ l) = err (failed (codes "get app backup status error, data is nil"))
wait_for_app (tick preparing ∷ l) = wait_for_app l
wait_for_app (tick other ∷ l) = wait_for_app l
wait_for_app (tick (finish f) ∷ l) = ok (some (trimmed f))

abbrev pub started : Result Bytes (Unit {0}) → Result Stop (Unit {0})
started (ok u) = ok tt
started (err e) = err (failed e)

unfoldable pub ready_for_backup_app :
    Bool → Result Bytes (Unit {0}) → List Wait → Result Stop (Option AppFiles)
unfolding wait_for_app
ready_for_backup_app is_app start l =
    if not is_app then ok none else started start >> wait_for_app l

-- The files whose paths are rewritten, and whether a prefix is put before their lines.
abbrev replaced :
    (Bytes → Bool → Result Bytes (Unit {0})) → Bool → List Bytes → Result Stop (List Bytes)
replaced replace appends [] = ok []
replaced replace appends (f ∷ l) =
    started (replace f appends) >> (replaced replace appends l >>= λ m. ok (f ∷ m))

-- The files, the prefixes of what they list and the metadata.
pub record AppBackup : Type 0 where
  pub files : List Bytes
  pub files_prefix : List Bytes
  pub metadata : Bytes

-- `replace` is replaceFilePaths.
unfoldable pub format_app_backup_files :
    (Bytes → Bool → Result Bytes (Unit {0}))
    → Bytes
    → Bytes
    → Bool
    → Option AppFiles
    → Result Stop (Option AppBackup)
format_app_backup_files replace userspace owner false f = ok none
format_app_backup_files replace userspace owner true none = err crashed
format_app_backup_files replace userspace owner true (some f) = do
  entry ← replaced replace true f.entry_files
  pg ← replaced replace false f.pg_files
  ok (
      some (record {
        files = entry ++ pg;
        files_prefix =
            path_join userspace (codes "Home")
            ∷ path_join (codes "/rootfs/middleware-backup/pg_backup") owner
            ∷ [];
        metadata = f.metadata;
      }))
