-- ===== src/Plan/Tests.antt =====
-- Concrete requests.
use backup_server.Base.{◌≡◌, refl, true, false, Option, none, some, List, [], ◌∷◌, ok, err, arith}
use backup_server.Base.Bytes.{Bytes, codes, split, cut, strip_prefix, contains, has_prefix}
use backup_server.Base.Int.{pos}
use backup_server.Backups.{Policy}
use backup_server.CronText.{parse_to_cron}
use backup_server.CronText.Fields.{cron_fields}
use backup_server.CronText.Numbers.{atoi, digits}
use backup_server.Plan.{
  Create, Account, own_path, first_fitting, valid_location, valid_integration_name, local_times,
  valid_backup_policy, checked,
}
use backup_server.Plan.Policies.{valid_policy_line}

abbrev daily_at : Bytes → Policy
daily_at times = record {
  enabled = false;
  frequency = "@daily";
  times_of_day = times;
  day_of_week = pos 1;
  date_of_month = pos 0;
}

abbrev to : Bytes → Create
to target = record {
  name = codes "photos";
  path = codes "/Files/Home/Pictures";
  location = "filesystem";
  kind = none;
  config = record { name = []; cloud_name = []; region_id = []; path = target };
  policies = daily_at (codes "7:30");
}

abbrev no_stamp : Bytes → Option Bytes
no_stamp times = none

policy_passes :
    valid_backup_policy no_stamp (daily_at (codes "07:05"))
    ≡ ok (record (daily_at (codes "07:05")) { enabled = true })
unfolding valid_backup_policy local_times contains cut strip_prefix split
policy_passes = refl

request_passes :
    checked none none no_stamp none (codes "ann") (to (codes "/Files/External/disk"))
    ≡ ok (
      record (to (codes "/Files/External/disk")) {
        policies = record (daily_at (codes "7:30")) { enabled = true };
      },
      [],
    )
unfolding checked local_times contains has_prefix cut strip_prefix split
request_passes = refl

own_directory : valid_location (to (codes "/Files/Home/Pictures/old")) ≡ err own_path
unfolding valid_location has_prefix strip_prefix
own_directory = refl

-- The same directory passes when only the path that is saved ends in a slash.
slash_passes :
    valid_location
      (record (to (codes "/Files/Home/Pictures")) { path = codes "/Files/Home/Pictures/" })
    ≡ ok tt
unfolding valid_location has_prefix strip_prefix
slash_passes = refl

-- A directory beside the one that is saved is refused too when its name goes on from it.
beside_refused : valid_location (to (codes "/Files/Home/Pictures2")) ≡ err own_path
unfolding valid_location has_prefix strip_prefix
beside_refused = refl

abbrev two_accounts : List Account
two_accounts =
    record { type_ = "awss3"; name = codes "k1" }
    ∷ record { type_ = "space"; name = codes "ann@olares" }
    ∷ []

space_account :
    valid_integration_name (some two_accounts) "space" (codes "ann") ≡ ok (codes "ann@olares")
unfolding valid_integration_name first_fitting contains cut strip_prefix
space_account = refl

valid_policy_line_example :
    (line : Bytes) × (parse_to_cron "@daily" (codes "07:05") (pos 1) (pos 0) ≡ ok line)
    × (split line b' ' ≡ cron_fields "@daily" (codes "07") (codes "05") (pos 5) (pos 1) (pos 0))
    × (true ≡ true)
unfolding split atoi digits
valid_policy_line_example =
    valid_policy_line no_stamp (daily_at (codes "07:05"))
      (record (daily_at (codes "07:05")) { enabled = true }) (codes "07") (codes "05") 7 5
      policy_passes refl refl refl (omega arith) (omega arith)
