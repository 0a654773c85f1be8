-- ===== src/Plan.antt =====
-- The checks of a request to back up: pkg/modules/backup/v1/backup_schedule.go, with the choice of
-- an account of pkg/integration/integration.go.
pub mod Policies
pub mod Targets
pub mod Kept
mod Tests
use backup_server.Base.{
  ℕ, zero, suc, String, str_eq, Bool, true, false, not, ◌&&◌, ◌||◌, Option, none, some, List, [],
  ◌∷◌, ◌==◌, leb, length, if◌then◌else◌, Result, ok, err, ◌>>=◌, ◌>>◌, check,
}
use backup_server.Base.Bytes.{Bytes, codes, bytes_eq, split, contains, has_prefix}
use backup_server.Base.Int.{ℤ, pos, negsuc}
use backup_server.Backups.{Policy}

-- LocationConfig
pub record LocationConfig : Type 0 where
  pub name : Bytes
  pub cloud_name : Bytes
  pub region_id : Bytes
  pub path : Bytes

-- BackupCreate, of whose type only the text of its kind is looked at.
pub record Create : Type 0 where
  pub name : Bytes
  pub path : Bytes
  pub location : String
  pub kind : Option String
  pub config : LocationConfig
  pub policies : Policy

pub data PlanError : Type 0 where
  no_name no_owner bad_location bad_config own_path no_account no_token : PlanError
  bad_frequency bad_times bad_day bad_date free_user no_space : PlanError

abbrev pub is_empty : Bytes → Bool
is_empty [] = true
is_empty (c ∷ s) = false

-- Is the request one for files?
abbrev pub for_files : Option String → Bool
for_files none = true
for_files (some kind) = str_eq kind "file"

abbrev pub is_cloud : String → Bool
is_cloud location = str_eq location "awss3" || str_eq location "tencentcloud"

abbrev pub is_supported : String → Bool
is_supported location = str_eq location "space" || is_cloud location || str_eq location "filesystem"

-- validLocation
unfoldable pub valid_location : Create → Result PlanError (Unit {0})
valid_location c =
    check (is_supported c.location) bad_location
    >> (if str_eq c.location "space"
        then check (not (is_empty c.config.cloud_name || is_empty c.config.region_id)) bad_config
        else if is_cloud c.location
        then check (not (is_empty c.config.name)) bad_config
        else check (not (is_empty c.config.path)) bad_config
          >> check (not (for_files c.kind && has_prefix c.config.path c.path)) own_path)

-- An account of the integration service: its type and its name.
pub record Account : Type 0 where
  pub type_ : String
  pub name : Bytes

abbrev pub fits : String → Bytes → Account → Bool
fits location name a =
    if str_eq location "space" || str_eq location "filesystem"
    then str_eq a.type_ "space" && (bytes_eq a.name name || contains a.name name)
    else if str_eq location "awss3"
    then str_eq a.type_ "awss3" && bytes_eq a.name name
    else if str_eq location "tencentcloud"
    then str_eq a.type_ "tencent" && bytes_eq a.name name
    else false

-- The loop of ValidIntegrationNameByLocationName.
unfoldable pub first_fitting : String → Bytes → List Account → Bytes
first_fitting location name [] = []
first_fitting location name (a ∷ l) =
    if fits location name a then a.name else first_fitting location name l

abbrev pub named_or_fail : Bytes → Result PlanError Bytes
named_or_fail [] = err no_account
named_or_fail (c ∷ s) = ok (c ∷ s)

-- `none` where the accounts cannot be listed.
unfoldable pub valid_integration_name :
    Option (List Account) → String → Bytes → Result PlanError Bytes
unfolding first_fitting
valid_integration_name none location name = err no_account
valid_integration_name (some accounts) location name =
    named_or_fail (first_fitting location name accounts)

abbrev pub with_account : Bytes → Create → Create
with_account name c = record c { config = record (c.config) { name = name } }

abbrev pub read_endpoint : Option Bytes → Result PlanError Bytes
read_endpoint none = err no_token
read_endpoint (some e) = ok e

-- validIntegration gives the request and the endpoint as it leaves them. `token` is the endpoint
-- of the cloud token, where one is given.
unfoldable pub valid_integration :
    Option (List Account) → Option Bytes → Create → Result PlanError (Create × Bytes)
valid_integration accounts token c =
    if str_eq c.location "filesystem"
    then ok (c, [])
    else valid_integration_name accounts c.location c.config.name >>= λ name.
        (if str_eq c.location "space"
          then ok (with_account name c, [])
          else if is_cloud c.location
          then (read_endpoint token >>= λ endpoint. ok (c, endpoint))
          else ok (c, []))

abbrev pub between : ℕ → ℕ → ℤ → Bool
between low high (pos n) = leb low n && leb n high
between low high (negsuc n) = false

abbrev pub is_frequency : String → Bool
is_frequency f =
    str_eq f "@hourly" || str_eq f "@daily" || str_eq f "@weekly" || str_eq f "@monthly"

abbrev pub read_times : Option Bytes → Result PlanError Bytes
read_times none = err bad_times
read_times (some t) = ok t

-- A text without a colon is a time stamp, which `to_local` turns into a time of day.
unfoldable pub local_times : (Bytes → Option Bytes) → Bytes → Result PlanError Bytes
local_times to_local times =
    if not (contains times (b':' ∷ []))
    then read_times (to_local times)
    else check (length (split times b':') == 2) bad_times >> ok times

-- validBackupPolicy gives the policy as it leaves it.
unfoldable pub valid_backup_policy : (Bytes → Option Bytes) → Policy → Result PlanError Policy
valid_backup_policy to_local p = do
  check (is_frequency p.frequency) bad_frequency
  times ← local_times to_local p.times_of_day
  check (not (str_eq p.frequency "@weekly") || between 1 7 p.day_of_week) bad_day
  check (not (str_eq p.frequency "@monthly") || between 1 31 p.date_of_month) bad_date
  ok (record p { enabled = true; times_of_day = times })

-- What the space answers about an owner: the level of the plan, and whether it can back up.
pub record Usage : Type 0 where
  pub plan_level : ℕ
  pub can_backup : Bool

abbrev pub read_usage : Option Usage → Result PlanError Usage
read_usage none = err no_token
read_usage (some u) = ok u

-- verifyUsage; `none` where the token or the answer is not given.
unfoldable pub verify_usage : Option Usage → String → Result PlanError (Unit {0})
verify_usage usage location =
    if not (str_eq location "space")
    then ok tt
    else read_usage usage >>= λ u.
        (check (not (u.plan_level == 1)) free_user >> check u.can_backup no_space)

-- The checks of Apply, in their order: validate, then verifyUsage.
unfoldable pub checked :
    Option (List Account)
    → Option Bytes
    → (Bytes → Option Bytes)
    → Option Usage
    → Bytes
    → Create
    → Result PlanError (Create × Bytes)
unfolding valid_location valid_integration valid_backup_policy verify_usage
checked accounts token to_local usage owner c = do
  check (not (is_empty c.name)) no_name
  check (not (is_empty owner)) no_owner
  valid_location c
  (d, endpoint) ← valid_integration accounts token c
  policy ← valid_backup_policy to_local d.policies
  verify_usage usage d.location
  ok (record d { policies = policy }, endpoint)
