-- ===== src/BackupUrl/Fixture.antt =====
-- A link to a backup in the file system.
use backup_server.Base.{◌≡◌, refl, some, [], ◌∷◌, ◌++◌, true, if◌then◌else◌, ok}
use backup_server.Base.Bytes.{
  trim_prefix, has_prefix, join, split, Bytes, codes, bytes_eq, cut, trim_right,
}
use backup_server.Paths.{Roots, real_path}
use backup_server.BackupUrl.{Link, Outside, Detail, parse_restore_backup_url_detail, BackupUrl}
use backup_server.BackupUrl.Names.{split_path}

abbrev pub id : Bytes
id = codes "0fd1f9a4-0B6e-4b0e-8b0f-2a2f1d8c7e55"

abbrev pub name : Bytes
name = codes "my-photos"

abbrev pub path : Bytes
path = codes "/Files/Home/disk/olares-backups/" ++ (name ++ b'-' ∷ id)

abbrev pub text : Bytes
text = path ++ codes "/"

abbrev pub values : Bytes → Bytes
values key = if bytes_eq key (codes "snapshotId") then codes "9b1c" else codes "1700000000"

abbrev pub link_of : Bytes → Link
link_of path = record { url = record { scheme = []; host = []; path = path }; values = values }

abbrev pub roots : Roots
roots = record {
  node = codes "olares";
  userspace = codes "/rootfs/pvc-1";
  appcache = codes "/rootfs/cache";
}

abbrev pub outside : Outside
outside = record { parse = λ s. some (link_of s); roots = some roots; exists = λ p. true }

abbrev pub detail : Detail
detail = record {
  storage = record {
    cloud_name = [];
    region_id = [];
    bucket = [];
    prefix = [];
    olares_suffix = [];
    filesystem_path = codes "/rootfs/pvc-1/Home/disk";
  };
  backup_name = name;
  backup_id = id;
  restic_snapshot_id = codes "9b1c";
  snapshot_time = codes "1700000000";
  location = "filesystem";
}

pub text_accepted : parse_restore_backup_url_detail outside text ≡ ok detail
unfolding parse_restore_backup_url_detail trim_right trim_prefix cut split_path real_path has_prefix
    join split
text_accepted = refl

abbrev pub parsed : BackupUrl
parsed = record {
  url = record { scheme = []; host = []; path = path };
  values = values;
  location = "filesystem";
  endpoint = codes "/rootfs/pvc-1/Home/disk";
  backup_id = id;
  backup_name = name;
  cloud_name = [];
  region = [];
  bucket = [];
  prefix = [];
  olares_suffix = [];
  filesystem_path = codes "/rootfs/pvc-1/Home/disk";
}
