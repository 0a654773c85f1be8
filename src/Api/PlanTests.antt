-- ===== src/Api/PlanTests.antt =====
-- Plans that are written out.
use backup_server.Base.{◌≡◌, refl, Bool, true, false, none, some, [], ◌∷◌}
use backup_server.Base.Bytes.{codes, has_prefix, split, contains, cut}
use backup_server.Base.Int.{pos}
use backup_server.Backups.{Policy}
use backup_server.Plan.{local_times, Create, checked, valid_location}
use backup_server.Api.Plans.{Request, Planned, Answers, success, add_backup}
use backup_server.Api.Planned.{Whole, Unlabelled, IsMade, add_backup-IsMade}

abbrev daily : Policy
daily = record {
  enabled = false;
  frequency = "@daily";
  times_of_day = codes "7:30";
  day_of_week = pos 0;
  date_of_month = pos 0;
}

abbrev plan : Create
plan = record {
  name = codes "photos ";
  path = codes "/Files/Home/Pictures/";
  location = "filesystem";
  kind = none;
  config = record { name = []; cloud_name = []; region_id = []; path = codes "/Files/Home/disk/" };
  policies = daily;
}

abbrev request : Request
request = record { plan = plan; app_name = []; has_config = true; has_policies = true }

abbrev answers : Bool → Answers
answers writes = record {
  reads = true;
  lists = true;
  accounts = none;
  token = none;
  to_local = λ s. none;
  usage = none;
  cluster = some (codes "c1");
  writes = writes;
  now = 5;
  new_id = "b2";
  hash = λ s. s;
}

abbrev planned : Planned
planned = record {
  label = codes "photos";
  owner = codes "ann";
  name = codes "photos";
  kind = "file";
  source = codes "/Files/Home/Pictures/";
  location = "filesystem";
  place = record {
    name = [];
    path = codes "/Files/Home/disk/";
    cloud_name = [];
    region_id = [];
    cluster_id = [];
    endpoint = [];
  };
  policy = record daily { enabled = true };
  size = 0;
  notified = false;
  size_updated = 1;
}

-- A second plan of the same name: it is asked for with a space behind the name.
second_made : (add_backup (answers true) (codes "ann") request (("b1", planned) ∷ [])).0 ≡ success
unfolding add_backup checked cut has_prefix split local_times contains valid_location
second_made = refl

first_made : (add_backup (answers true) (codes "ann") request []).0 ≡ success
unfolding add_backup checked cut has_prefix split local_times contains valid_location
first_made = refl

add_backup-IsMade_example :
    Whole (answers true) request
    × Unlabelled (answers true) (codes "photos ") (codes "ann") []
    × IsMade
        (answers true)
        (codes "ann")
        request
        []
        (add_backup (answers true) (codes "ann") request []).1
add_backup-IsMade_example = add_backup-IsMade (answers true) (codes "ann") request [] first_made
