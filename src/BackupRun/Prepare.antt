-- ===== src/BackupRun/Prepare.antt =====
-- What a backup needs before it runs: `prepareBackupParams` and `checkDiskSize` of
-- pkg/storage/storage_backup.go, with `GetBackupLocationConfig` of pkg/handlers/helper.go.
use backup_server.Base.{
  ℕ, String, str_eq, Bool, true, false, not, ◌&&◌, ◌||◌, Option, none, some, List, [], ◌∷◌, ltb,
  if◌then◌else◌, Result, ok, err, ◌>>=◌, ◌>>◌, check,
}
use backup_server.Base.Bytes.{Bytes, codes}
use backup_server.Paths.{Roots, real_path}
use backup_server.BackupRun.Cloud.{Location}

-- The JSON of a location: its entries "name", "path" and "endpoint".
pub record Entry : Type 0 where
  pub name : Option Bytes
  pub path : Option Bytes
  pub endpoint : Option Bytes

abbrev pub or_empty : Option Bytes → Bytes
or_empty none = []
or_empty (some s) = s

abbrev is_none : Option Bytes → Bool
is_none none = true
is_none (some s) = false

abbrev wants_name : String → Bool
wants_name kind = str_eq kind "space" || str_eq kind "awss3" || str_eq kind "tencentcloud"

abbrev config_of : String → Option Entry → Result Bytes (Option Location)
config_of kind none = err (codes "location config is no JSON")
config_of kind (some e) =
    if wants_name kind && is_none e.name
    then err (codes "location config name not exsits")
    else if str_eq kind "filesystem" && is_none e.path
    then err (codes "location config path not exsits")
    else ok (
        some (record {
          kind = kind;
          name = or_empty e.name;
          endpoint = or_empty e.endpoint;
          path = or_empty e.path;
        }))

-- The first location that the map gives; `none` is JSON that is not read.
unfoldable pub get_backup_location_config :
    List (String × Option Entry) → Result Bytes (Option Location)
get_backup_location_config [] = ok none
get_backup_location_config ((kind, e) ∷ l) = config_of kind e

-- What a Backup says of its files; `path` is the entry of its type "file".
pub record Source : Type 0 where
  pub kind : String
  pub path : Bytes
  pub locations : List (String × Option Entry)

-- BackupParameters, with BackupAppFilesPrefix.
pub record Params : Type 0 where
  pub password : Bytes
  pub path : Bytes
  pub source_path : Bytes
  pub location : Location
  pub location_in_file_system : Bytes
  pub files_prefix : List Bytes

abbrev pub need_location : Option Location → Result Bytes Location
need_location none = err (codes "location config not exists")
need_location (some l) = ok l

-- A location in the file system is written as the path that it has there.
abbrev pub placed_in : Roots → Location → Location
placed_in r l = if str_eq l.kind "filesystem" then record l { path = real_path r l.path } else l

abbrev shown_path : Location → Bytes
shown_path l = if str_eq l.kind "filesystem" then l.path else []

abbrev is_file : Source → Bool
is_file s = str_eq s.kind "file"

abbrev params_of : Roots → Source → Bytes → Location → Params
params_of r s password l = record {
  password = password;
  path = if is_file s then real_path r s.path else [];
  source_path = if is_file s then s.path else [];
  location = placed_in r l;
  location_in_file_system = shown_path l;
  files_prefix = if is_file s then real_path r s.path ∷ [] else [];
}

-- `token` and `password` are the answers of the services.
unfoldable pub prepare_backup_params :
    Roots → Source → Result Bytes (Unit {0}) → Result Bytes Bytes → Result Bytes Params
unfolding get_backup_location_config
prepare_backup_params r s token password = do
  token
  p ← password
  found ← get_backup_location_config s.locations
  l ← need_location found
  ok (params_of r s p l)

-- disk.Usage, by whether the used part exceeds FreeLimit, and the bytes that are free.
pub record DiskUsage : Type 0 where
  pub over_limit : Bool
  pub free : ℕ

-- The disks: their usage, the sizes of directories, and the product of a size and 1.05, which is
-- one of floating point.
pub record Disks : Type 0 where
  pub usage : Bytes → Result Bytes DiskUsage
  pub dir_size : Bytes → Result Bytes ℕ
  pub with_margin : ℕ → ℕ

abbrev check_target : Disks → Params → Result Bytes ℕ
check_target d p = do
  u ← d.usage p.location.path
  check (not u.over_limit)
      (codes "Disk usage has reached 85.00%. Please clean up disk space first.")
  size ← d.dir_size p.path
  check (not (ltb u.free (d.with_margin size))) (codes "Insufficient space on the target disk.")
  ok 0

-- The size of the files, which is kept for a backup to the space.
unfoldable pub check_disk_size : Disks → String → Params → Result Bytes ℕ
check_disk_size d kind p =
    if str_eq kind "app"
    then ok 0
    else if str_eq p.location.kind "space"
    then d.dir_size p.path
    else if str_eq p.location.kind "filesystem"
    then check_target d p
    else ok 0
