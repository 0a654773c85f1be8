-- ===== src/Api/Plans.antt =====
-- `addBackup` and `update` of pkg/modules/backup/v1/handler.go, with `verify` of model.go, `mergeConfig`
-- and `apply` of backup_schedule.go, and `Create` and `GetByLabel` of pkg/handlers/handler_backup.go.
-- Texts of a request are taken to be in ASCII.
use backup_server.Base.{
  ℕ, String, str_eq, Bool, true, false, not, ◌||◌, ◌&&◌, Option, none, some, List, [], ◌∷◌, ◌==◌,
  if◌then◌else◌, Dict, get, put, Result, ok, err,
}
use backup_server.Base.Bytes.{Bytes, codes, bytes_eq, has_prefix}
use backup_server.Backups.{Policy}
use backup_server.Plan.{
  LocationConfig, Create, PlanError, Account, Usage, is_empty, is_cloud, valid_backup_policy,
  checked,
}
use backup_server.Api.Texts.{is_blank, trim_space}

-- BackupCreate: `plan` is what the checks read, and holds a configuration of the location and a
-- policy only where the request has them.
pub record Request : Type 0 where
  pub plan : Create
  pub app_name : Bytes
  pub has_config : Bool
  pub has_policies : Bool

abbrev only_blank : Bytes → Bool
only_blank [] = true
only_blank (c ∷ s) = is_blank c && only_blank s

abbrev is_illegal : ℕ → Bool
is_illegal c = c == 0 || (c == b'\\' || (c == b'/' || (c == b'@' || (c == b'!' || c == b'#'))))

-- ContainsIllegalChars, and the null character.
abbrev has_illegal : Bytes → Bool
has_illegal [] = false
has_illegal (c ∷ s) = is_illegal c || has_illegal s

-- verifyBackupFiles; a reserved name begins with a dot.
unfoldable pub verify_backup_files : Create → Bool
verify_backup_files c = not (
    only_blank c.name || (has_prefix c.name (codes ".") || (has_illegal c.name || is_empty c.path)))

abbrev pub is_app : Option String → Bool
is_app none = false
is_app (some kind) = str_eq kind "app"

-- verify
unfoldable pub verify : Request → Bool
unfolding verify_backup_files
verify r =
    not (is_empty r.plan.name)
    && (if is_app r.plan.kind then not (is_empty r.app_name) else verify_backup_files r.plan)

-- The JSON of a location, without the keys that it does not have.
pub record Place : Type 0 where
  pub name : Bytes
  pub path : Bytes
  pub cloud_name : Bytes
  pub region_id : Bytes
  pub cluster_id : Bytes
  pub endpoint : Bytes

-- A Backup object, with its labels; `source` is the path of the files or the name of the app.
pub record Planned : Type 0 where
  pub label : Bytes
  pub owner : Bytes
  pub name : Bytes
  pub kind : String
  pub source : Bytes
  pub location : String
  pub place : Place
  pub policy : Policy
  pub size : ℕ
  pub notified : Bool
  pub size_updated : ℕ

-- What is answered while one request is handled: the reads and the listing of backups, what the checks
-- ask for, the id of the cluster, the write, the time, and the hash of a name, MD5.
pub record Answers : Type 0 where
  pub reads : Bool
  pub lists : Bool
  pub accounts : Option (List Account)
  pub token : Option Bytes
  pub to_local : Bytes → Option Bytes
  pub usage : Option Usage
  pub cluster : Option Bytes
  pub writes : Bool
  pub now : ℕ
  pub new_id : String
  pub hash : Bytes → Bytes

pub data Reply : Type 0 where
  success refused panicked : Reply

-- GetByLabel, of the labels of the name and of the owner.
unfoldable pub has_label : Bytes → Bytes → Dict Planned → Bool
has_label label owner [] = false
has_label label owner ((id, b) ∷ store) =
    let rest = has_label label owner store in
    bytes_eq b.label label && bytes_eq b.owner owner || rest

-- buildLocationConfig
unfoldable pub build_location_config : String → Bytes → Bytes → LocationConfig → Place
build_location_config location cluster endpoint c = record {
  name = c.name;
  path = (if str_eq location "filesystem" then c.path else []);
  cloud_name = (if str_eq location "space" then c.cloud_name else []);
  region_id = (if str_eq location "space" then c.region_id else []);
  cluster_id = (if str_eq location "space" then cluster else []);
  endpoint = (if is_cloud location then endpoint else []);
}

module _ (a : Answers) where
  -- mergeConfig, with the labels of Create; the request is as the checks leave it.
  unfoldable pub merge_config : Bytes → Bytes → Bytes → Bytes → Create → Planned
  unfolding build_location_config
  merge_config owner app_name cluster endpoint c = record {
    label = a.hash (trim_space c.name);
    owner = owner;
    name = trim_space c.name;
    kind = (if is_app c.kind then "app" else "file");
    source = (if is_app c.kind then app_name else c.path);
    location = c.location;
    place = build_location_config c.location cluster endpoint c.config;
    policy = c.policies;
    size = 0;
    notified = false;
    size_updated = a.now;
  }

  abbrev pub apply :
      Bytes → Bytes → Create × Bytes → Option Bytes → Dict Planned → Reply × Dict Planned
  apply owner app_name x none store = (refused, store)
  apply owner app_name (c, endpoint) (some cluster) store =
      if a.writes
      then (success, put store a.new_id (merge_config owner app_name cluster endpoint c))
      else (refused, store)

  abbrev pub apply_checked :
      Bytes → Bytes → Result PlanError (Create × Bytes) → Dict Planned → Reply × Dict Planned
  apply_checked owner app_name (err e) store = (refused, store)
  apply_checked owner app_name (ok x) store = apply owner app_name x a.cluster store

  -- Whether the request has what is required.
  abbrev pub is_whole : Request → Bool
  is_whole r =
      (verify r && (not (str_eq r.plan.location "") && r.has_config))
      && (r.has_policies
          && (not (str_eq r.plan.policies.frequency "")
              && not (is_empty r.plan.policies.times_of_day)))

  -- addBackup. The name is looked up as it is, and stored without the spaces around it.
  unfoldable pub add_backup : Bytes → Request → Dict Planned → Reply × Dict Planned
  unfolding verify has_label merge_config
  add_backup owner r store =
      if not (is_whole r)
      then (refused, store)
      else if not a.lists || has_label (a.hash r.plan.name) owner store
      then (refused, store)
      else apply_checked owner r.app_name
          (checked a.accounts a.token a.to_local a.usage owner r.plan) store

  -- The error of the write is dropped, and the answer is made of a new listing.
  abbrev pub update_checked :
      String → Planned → Result PlanError Policy → Dict Planned → Reply × Dict Planned
  update_checked id b (err e) store = (refused, store)
  update_checked id b (ok p) store =
      let after = (if a.writes then put store id (record b { policy = p }) else store) in
      if a.lists then (success, after) else (refused, after)

  abbrev pub update_found : String → Request → Option Planned → Dict Planned → Reply × Dict Planned
  update_found id r none store = (refused, store)
  update_found id r (some b) store =
      if not r.has_policies
      then (panicked, store)
      else update_checked id b (valid_backup_policy a.to_local r.plan.policies) store

  -- update
  unfoldable pub update_backup : String → Request → Dict Planned → Reply × Dict Planned
  update_backup id r store =
      if not a.reads then (refused, store) else update_found id r (get store id) store
