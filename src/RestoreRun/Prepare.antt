-- ===== src/RestoreRun/Prepare.antt =====
-- What a restore needs before it runs: `prepareRestoreParams` and `checkDiskSize` of
-- pkg/storage/storage_restore.go.
use backup_server.Base.{
  ℕ, String, str_eq, Bool, not, Option, none, some, [], ◌++◌, ltb, if◌then◌else◌, Result, ok, err,
  ◌>>=◌, ◌>>◌, check,
}
use backup_server.Base.Bytes.{Bytes, codes}
use backup_server.Base.Int.{ℤ}
use backup_server.CronText.Numbers.{itoa}
use backup_server.Paths.{Roots, root_of, trim_path_prefix, path_join}
use backup_server.BackupRun.App.{Stop, failed, crashed}
use backup_server.BackupRun.Cloud.{Location}
use backup_server.BackupRun.Prepare.{
  Source, Disks, placed_in, get_backup_location_config, need_location,
}

-- RestoreBackupUrlDetail
pub record UrlDetail : Type 0 where
  pub cloud_name : Bytes
  pub region_id : Bytes
  pub bucket : Bytes
  pub prefix : Bytes
  pub olares_suffix : Bytes
  pub filesystem_path : Bytes

-- RestoreType, without the names and ids that only the SDK reads; a restore that is not one of a
-- snapshot is one of a URL.
pub record RestoreType : Type 0 where
  pub of_snapshot : Bool
  pub path : Bytes
  pub sub_path : Bytes
  pub sub_path_timestamp : ℤ
  pub location : String
  pub password : Bytes
  pub total_bytes : ℕ
  pub backup_url : Option UrlDetail

-- RestoreParameters, whose ids only the SDK reads.
pub record Params : Type 0 where
  pub password : Bytes
  pub root_path : Bytes
  pub path : Bytes
  pub location : Location

abbrev pub lift : {A : Type 0} → Result Bytes A → Result Stop A
lift (ok a) = ok a
lift (err e) = err (failed e)

-- What the services answer: the token and the password of a backup, and the account for a URL.
pub record Services : Type 0 where
  pub token : Result Bytes (Unit {0})
  pub password : Result Bytes Bytes
  pub integration_name : UrlDetail → Result Bytes Bytes
  pub decoded : Bytes

abbrev from_snapshot : Roots → Source → Services → Result Stop (Bytes × Location)
from_snapshot r s a = do
  lift a.token
  p ← lift a.password
  found ← lift (get_backup_location_config s.locations)
  l ← lift (need_location found)
  ok (p, placed_in r l)

-- The path in the file system is the one of the URL.
abbrev from_url : RestoreType → Services → Option UrlDetail → Result Stop (Bytes × Location)
from_url t a none = err crashed
from_url t a (some u) = do
  name ← lift (a.integration_name u)
  ok (a.decoded, record { kind = t.location; name = name; endpoint = []; path = u.filesystem_path })

-- The directory that a restore writes before it is renamed.
abbrev pub dot_path : RestoreType → Bytes
dot_path t =
    path_join t.path (t.sub_path ++ (codes ".restore-" ++ itoa t.sub_path_timestamp)) ++ codes "/"

-- The roots of both paths are those of the first.
abbrev pub file_paths : Roots → RestoreType → Bytes × Bytes
file_paths r t =
    let (place, rest) = trim_path_prefix r.node (dot_path t) in
    let (unused, top) = trim_path_prefix r.node (path_join t.path []) in
    (path_join (root_of r place) top, path_join (root_of r place) rest)

abbrev pub app_paths : Roots → Bytes × Bytes
app_paths r = let home = path_join r.userspace (codes "Home") in (home, home)

abbrev params_of : (Bytes × Bytes) → (Bytes × Location) → Params
params_of (top, path) (password, l) = record {
  password = password;
  root_path = top;
  path = path;
  location = l;
}

-- `source` is the backup of a snapshot; `kind` is that of the restore.
unfoldable pub prepare_restore_params :
    Roots → Source → String → RestoreType → Services → Result Stop Params
unfolding get_backup_location_config
prepare_restore_params r source kind t a =
    (if t.of_snapshot then from_snapshot r source a else from_url t a t.backup_url) >>= λ x.
    ok (params_of (if str_eq kind "file" then file_paths r t else app_paths r) x)

unfoldable pub check_disk_size : Disks → RestoreType → Params → Result Bytes (Unit {0})
check_disk_size d t p = do
  u ← d.usage p.root_path
  check (not u.over_limit)
      (codes "Disk usage has reached 85.00%. Please clean up disk space first.")
  check (not (ltb u.free (d.with_margin t.total_bytes)))
      (codes "Insufficient space on the target disk.")
