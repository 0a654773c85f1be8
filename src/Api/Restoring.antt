-- ===== src/Api/Restoring.antt =====
-- `addRestore` of pkg/modules/backup/v1/handler.go, with `verify` of model.go and `CreateRestore` of
-- pkg/handlers/handler_restore.go. Texts of a request are taken to be in ASCII, of which TrimSpace
-- knows six spaces.
use backup_server.Base.{
  ℕ, String, Bool, not, ◌||◌, ◌&&◌, Option, none, some, List, [], if◌then◌else◌, Dict, put, Result,
  ok, err, ◌>>=◌, ◌>>◌, check,
}
use backup_server.Base.Int.{ℤ, pos}
use backup_server.Base.Bytes.{Bytes, codes, bytes_eq}
use backup_server.Api.Texts.{trim_space, trim_line_break}
use backup_server.Repo.{Failure, invalid, panicked, is_empty}
use backup_server.BackupRun.Prepare.{Source, get_backup_location_config}
use backup_server.BackupRun.Cloud.{Location}
use backup_server.RestoreRun.Prepare.{RestoreType, UrlDetail}
use backup_server.BackupUrl.{
  Outside, BackupUrl, Detail, need, parse_backup_url, parse_restore_backup_url_detail,
}
use backup_server.BackupUrl.Tags.{
  get_backup_type_from_tags, get_backup_type_app_name, get_backup_type_file_path,
}

-- RestoreCreate
pub record Request : Type 0 where
  pub backup_url : Bytes
  pub password : Bytes
  pub snapshot_id : Bytes
  pub path : Bytes
  pub sub_path : Bytes

-- verify: either a link with its password or a snapshot.
unfoldable pub verify : Request → Bool
verify r =
    let no_url = is_empty (trim_space r.backup_url) in
    let no_snapshot = is_empty (trim_space r.snapshot_id) in
    if no_url then not no_snapshot else no_snapshot && not (is_empty (trim_space r.password))

-- A snapshot in a repository; the number of its bytes is in a summary that may be missing.
pub record Remote : Type 0 where
  pub tags : List Bytes
  pub total_bytes : Option ℕ

-- A Snapshot object: its backup, the id of its snapshot in the repository, and its time, which is a
-- pointer too.
pub record Snapshot : Type 0 where
  pub backup_id : Bytes
  pub snapshot_id : Option Bytes
  pub created_at : Option Bytes

-- A Backup object: its id, its name, and what it says of its files.
pub record Stored : Type 0 where
  pub id : Bytes
  pub name : Bytes
  pub source : Source

-- A Restore object that is created, with its RestoreType.
pub record Created : Type 0 where
  pub owner : Bytes
  pub kind : Bytes
  pub app_name : Bytes
  pub backup_path : Bytes
  pub backup_id : Bytes
  pub backup_name : Bytes
  pub snapshot_id : Bytes
  pub snapshot_time : Bytes
  pub restic_snapshot_id : Bytes
  pub cluster_id : Bytes
  pub endpoint : Bytes
  pub restore_type : RestoreType
  pub phase : String

-- What is answered while one request is handled: the id of the cluster, the reads of a snapshot and a
-- backup, which give `none` where there is none, base64, the outside of a link, the snapshot of a
-- link, whether Wise is installed, the time, and the creation.
pub record Answers : Type 0 where
  pub cluster : Option Bytes
  pub snapshot : Bytes → Option Snapshot
  pub backup : Bytes → Result Bytes (Option Stored)
  pub decode : Bytes → Option Bytes
  pub encode : Bytes → Bytes
  pub outside : Outside
  pub remote : BackupUrl → Detail → Result Bytes Remote
  pub has_wise : Bool
  pub now : ℤ
  pub creates : Bool
  pub new_id : String

-- The variables that the two branches leave.
pub record Found : Type 0 where
  pub url_info : Option BackupUrl
  pub detail : Option Detail
  pub remote : Option Remote
  pub kind : Bytes
  pub app_name : Bytes
  pub backup_id : Bytes
  pub backup_name : Bytes
  pub backup_path : Bytes
  pub restic_snapshot_id : Bytes
  pub snapshot_time : Bytes
  pub location : String

abbrev pub refuse : {A : Type 0} → Result Bytes A → Result Failure A
refuse (ok a) = ok a
refuse (err e) = err invalid

-- A backup that is missing is an object without content.
abbrev pub object_of : Option Stored → Stored
object_of none = record {
  id = [];
  name = [];
  source = record { kind = ""; path = []; locations = [] };
}
object_of (some s) = s

abbrev location_of : Option Location → String
location_of none = ""
location_of (some l) = l.kind

-- *snapshot.Spec.SnapshotId
abbrev pub deref : {A : Type 0} → Option A → Result Failure A
deref none = err panicked
deref (some a) = ok a

module _ (a : Answers) (r : Request) where
  -- The type of the backup is not looked up, nor is a backup that is missing refused.
  unfoldable pub from_snapshot : Result Failure Found
  unfolding get_backup_location_config
  from_snapshot = do
    s ← need (a.snapshot r.snapshot_id)
    b ← refuse (a.backup s.backup_id)
    l ← refuse (get_backup_location_config (object_of b).source.locations)
    id ← deref s.snapshot_id
    time ← deref s.created_at
    ok (record {
      url_info = none;
      detail = none;
      remote = none;
      kind = [];
      app_name = [];
      backup_id = (object_of b).id;
      backup_name = (object_of b).name;
      backup_path = (object_of b).source.path;
      restic_snapshot_id = id;
      snapshot_time = time;
      location = location_of l;
    })

  abbrev pub found_of : BackupUrl → Detail → Remote → Found
  found_of u d m =
      let kind = get_backup_type_from_tags m.tags in
      record {
        url_info = some u;
        detail = some d;
        remote = some m;
        kind = kind;
        app_name =
            (if bytes_eq kind (codes "app") then get_backup_type_app_name a.decode m.tags else []);
        backup_path =
            (if bytes_eq kind (codes "app") then [] else get_backup_type_file_path a.decode m.tags);
        backup_id = d.backup_id;
        backup_name = d.backup_name;
        restic_snapshot_id = d.restic_snapshot_id;
        snapshot_time = d.snapshot_time;
        location = d.location;
      }

  unfoldable pub from_url : Result Failure Found
  from_url = do
    text ← need (a.decode r.backup_url)
    check (not (is_empty text)) invalid
    u ← parse_backup_url a.outside (trim_line_break text)
    d ← parse_restore_backup_url_detail a.outside (trim_line_break text)
    m ← refuse (a.remote u d)
    ok (found_of u d m)

  -- Whether the request names a directory, for files, or else the app Wise is installed.
  abbrev pub can_restore : Bytes → Bool
  can_restore kind =
      if bytes_eq kind (codes "file")
      then not (is_empty r.path || is_empty r.sub_path)
      else a.has_wise

  abbrev storage_of : Option Detail → Option UrlDetail
  storage_of none = none
  storage_of (some d) = some d.storage

  abbrev pub restore_type_of : Found → ℕ → RestoreType
  restore_type_of f total =
      let is_app = bytes_eq f.kind (codes "app") in
      record {
        of_snapshot = not (is_empty r.snapshot_id);
        path = (if is_app then [] else r.path);
        sub_path = (if is_app then [] else trim_space r.sub_path);
        sub_path_timestamp = (if is_app then pos 0 else a.now);
        location = f.location;
        password = a.encode (trim_space r.password);
        total_bytes = total;
        backup_url = storage_of f.detail;
      }

  abbrev pub created_of : Bytes → Bytes → Found → BackupUrl → ℕ → Created
  created_of owner cluster f u total = record {
    owner = owner;
    kind = f.kind;
    app_name = f.app_name;
    backup_path = (if bytes_eq f.kind (codes "app") then [] else f.backup_path);
    backup_id = f.backup_id;
    backup_name = f.backup_name;
    snapshot_id = r.snapshot_id;
    snapshot_time = f.snapshot_time;
    restic_snapshot_id = f.restic_snapshot_id;
    cluster_id = cluster;
    endpoint = u.endpoint;
    restore_type = restore_type_of f total;
    phase = "Pending";
  }

  -- The restore that is asked for. The link, the snapshot in the repository and its summary are
  -- read through pointers.
  unfoldable pub asked_restore : Bytes → Result Failure Created
  unfolding verify from_snapshot from_url
  asked_restore owner = do
    check (verify r) invalid
    cluster ← need a.cluster
    f ← (if is_empty r.snapshot_id then from_url else from_snapshot)
    check (can_restore f.kind) invalid
    u ← deref f.url_info
    m ← deref f.remote
    total ← deref m.total_bytes
    ok (created_of owner cluster f u total)

  abbrev pub create :
      Result Failure Created → Dict Created → Result Failure (Unit {0}) × Dict Created
  create (err e) restores = (err e, restores)
  create (ok c) restores =
      if a.creates then (ok tt, put restores a.new_id c) else (err invalid, restores)

  -- addRestore
  unfoldable pub add_restore : Bytes → Dict Created → Result Failure (Unit {0}) × Dict Created
  unfolding asked_restore
  add_restore owner restores = create (asked_restore owner) restores
