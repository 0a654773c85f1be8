-- ===== src/BackupUrl.antt =====
-- The link to a backup from which a restore is made: `ParseRestoreBackupUrlDetail`, `ParseBackupUrl`
-- and `FormatEndpoint` of pkg/handlers/helper.go, with `GetStorage` of pkg/handlers/model.go. What
-- url.Parse finds in a text is an argument.
pub mod Names
pub mod Tags
pub mod Split
pub mod Parsed
pub mod Tagged
pub mod Fixture
mod Tests
use backup_server.Base.{
  ℕ, String, str_eq, Bool, true, false, not, Option, none, some, List, [], ◌∷◌, ◌++◌, ◌==◌,
  if◌then◌else◌, Result, ok, err, ◌>>=◌, ◌>>◌, check,
}
use backup_server.Base.Bytes.{Bytes, codes, cut, contains, trim_prefix, trim_right}
use backup_server.Paths.{Roots, real_path}
use backup_server.Repo.{
  RepositoryInfo, Failure, invalid, panicked, Url, is_empty, format_space, format_cos, format_s3,
}
use backup_server.RestoreRun.Prepare.{UrlDetail}
use backup_server.BackupUrl.Names.{split_path}

-- What url.Parse finds, with the values of the query.
pub record Link : Type 0 where
  pub url : Url
  pub values : Bytes → Bytes

-- What is asked of the outside: url.Parse, the directories of the owner, and whether a file exists.
pub record Outside : Type 0 where
  pub parse : Bytes → Option Link
  pub roots : Option Roots
  pub exists : Bytes → Bool

-- BackupUrlType, without the directory of the user, which is in the roots.
pub record BackupUrl : Type 0 where
  pub url : Url
  pub values : Bytes → Bytes
  pub location : String
  pub endpoint : Bytes
  pub backup_id : Bytes
  pub backup_name : Bytes
  pub cloud_name : Bytes
  pub region : Bytes
  pub bucket : Bytes
  pub prefix : Bytes
  pub olares_suffix : Bytes
  pub filesystem_path : Bytes

abbrev pub storage_prefix : Bytes
storage_prefix = codes "olares-backups/"

abbrev pub need : {A : Type 0} → Option A → Result Failure A
need none = err invalid
need (some a) = ok a

abbrev pub by_tags : Url → Option String
by_tags u =
    if contains u.path (codes "did:key:")
    then some "space"
    else if contains u.host (codes "amazonaws.com")
    then some "awss3"
    else if contains u.host (codes "myqcloud.com")
    then some "tencentcloud"
    else none

-- Where the link leads. Without a scheme the first byte of the path is read.
unfoldable pub location_of : Url → Result Failure String
location_of u =
    if is_empty u.scheme
    then elim u.path [
      | [] ↦ err panicked
      | c ∷ s ↦ (if c == b'/' then ok "filesystem" else need (by_tags u))
    ]
    else need (by_tags u)

-- TrimSuffix of pkg/util/string: what stands before the text, and nothing where it is missing.
abbrev pub before : Bytes → Bytes → Bytes
before s sep = elim (cut s sep) [ none ↦ [] | some (a, b) ↦ a ]

abbrev pub only_endpoint : Bytes → RepositoryInfo
only_endpoint e = record { region = []; bucket = []; prefix = []; endpoint = e; suffix = [] }

abbrev pub url_of : Option Link → Option Url
url_of none = none
url_of (some l) = some l.url

abbrev pub without_s3 : RepositoryInfo → RepositoryInfo
without_s3 i = record i { endpoint = trim_prefix i.endpoint (codes "s3:") }

-- FormatEndpoint
unfoldable pub format_endpoint :
    Outside → String → Bytes → Bytes → Bytes → Roots → Result Failure RepositoryInfo
format_endpoint o location schema host url_path roots =
    let p = before url_path storage_prefix in
    if str_eq location "space"
    then format_space schema host p
    else if str_eq location "tencentcloud"
    then format_cos schema host p
    else if str_eq location "awss3"
    then (format_s3 (url_of (o.parse (schema ++ (codes "://" ++ (host ++ p))))) >>= λ i.
        ok (without_s3 i))
    else if str_eq location "filesystem"
    then ok (only_endpoint (real_path roots p))
    else err invalid

abbrev pub cloud_of : String → Bytes → Bytes
cloud_of location host =
    if not (str_eq location "space")
    then []
    else if contains host (codes "amazonaws.com")
    then codes "aws"
    else if contains host (codes "myqcloud.com")
    then codes "tencentcloud"
    else []

abbrev pub url_type : Link → String → RepositoryInfo → Bytes × Bytes → BackupUrl
url_type l location i (name, id) = record {
  url = record l.url { path = trim_right l.url.path b'/' };
  values = l.values;
  location = location;
  endpoint = i.endpoint;
  backup_id = id;
  backup_name = name;
  cloud_name = cloud_of location l.url.host;
  region = i.region;
  bucket = i.bucket;
  prefix = i.prefix;
  olares_suffix = i.suffix;
  filesystem_path = (if str_eq location "filesystem" then i.endpoint else []);
}

-- A directory of the file system has to be there.
abbrev pub is_there : Outside → String → RepositoryInfo → Bool
is_there o location i = if str_eq location "filesystem" then o.exists i.endpoint else true

-- ParseBackupUrl
unfoldable pub parse_backup_url : Outside → Bytes → Result Failure BackupUrl
unfolding location_of format_endpoint
parse_backup_url o s = do
  roots ← need o.roots
  l ← need (o.parse s)
  location ← location_of l.url
  check (not (is_empty (trim_prefix l.url.path (codes "/")))) invalid
  parts ← need (cut l.url.path storage_prefix)
  names ← need (split_path parts.1)
  i ← format_endpoint o location l.url.scheme l.url.host l.url.path roots
  check (is_there o location i) invalid
  ok (url_type l location i names)

-- GetStorage
unfoldable pub get_storage : BackupUrl → UrlDetail
get_storage u = record {
  cloud_name = u.cloud_name;
  region_id = u.region;
  bucket = u.bucket;
  prefix = u.prefix;
  olares_suffix = u.olares_suffix;
  filesystem_path = (if str_eq u.location "filesystem" then u.endpoint else []);
}

-- The results of ParseRestoreBackupUrlDetail.
pub record Detail : Type 0 where
  pub storage : UrlDetail
  pub backup_name : Bytes
  pub backup_id : Bytes
  pub restic_snapshot_id : Bytes
  pub snapshot_time : Bytes
  pub location : String

abbrev pub detail_of : BackupUrl → Detail
detail_of b = record {
  storage = get_storage b;
  backup_name = b.backup_name;
  backup_id = b.backup_id;
  restic_snapshot_id = b.values (codes "snapshotId");
  snapshot_time = b.values (codes "snapshotTime");
  location = b.location;
}

abbrev pub link_text : Bytes → Bytes
link_text u = trim_right (trim_prefix u (codes "s3:")) b'/'

-- ParseRestoreBackupUrlDetail
unfoldable pub parse_restore_backup_url_detail : Outside → Bytes → Result Failure Detail
unfolding parse_backup_url get_storage
parse_restore_backup_url_detail o u = do
  check (not (is_empty u)) invalid
  b ← parse_backup_url o (link_text u)
  check (not (is_empty b.backup_name)) invalid
  check (not (is_empty b.backup_id)) invalid
  check (not (is_empty (b.values (codes "snapshotId")))) invalid
  check (not (is_empty (b.values (codes "snapshotTime")))) invalid
  ok (detail_of b)
