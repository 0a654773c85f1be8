-- ===== src/Backups/Tests.antt =====
-- Backups reconciled over a concrete cron.
use backup_server.Base.{◌≡◌, refl, Bool, true, false, none, some, [], ◌∷◌, get, put}
use backup_server.Base.Bytes.{codes, split}
use backup_server.Base.Int.{pos}
use backup_server.CronText.{parse_to_cron, cron_line, two_parts, pred_64}
use backup_server.CronText.Numbers.{atoi, itoa, show, digits}
use backup_server.Schedule.{remove_named, create_schedule}
use backup_server.Schedule.Slots.{listed, emptied, slots_cron, slots_cron-IsCron}
use backup_server.Worker.Reach.{init}
use backup_server.Worker.Cancel.{cancel_backup}
use backup_server.Backups.{Policy, Backup, World, Answers, done, line_of, reconcile}
use backup_server.Backups.Scheduled.{Follows, schedule-Follows}
use backup_server.Backups.Deleted.{Gone, deleted_gone}

abbrev weekly : Policy
weekly = record {
  enabled = true;
  frequency = "@weekly";
  times_of_day = codes "7:30";
  day_of_week = pos 1;
  date_of_month = pos 0;
}

abbrev backup_one : Bool → Backup
backup_one gone = record {
  name = "b1";
  owner = "ann";
  location = some "space";
  policy = some weekly;
  deleted = gone;
  notified = false;
}

abbrev world_one : Bool → World slots_cron
world_one gone = record {
  backups = ("b1", backup_one gone) ∷ [];
  snapshots = [];
  pools = init;
  cron = some ("b1", codes "0 1 * * *") ∷ some ("b2", codes "0 2 * * *") ∷ [];
}

abbrev all_well : Answers
all_well = record {
  client = true;
  reads = true;
  deletes_snapshots = true;
  has_token = true;
  deletes = true;
  notifies = true;
  marks = true;
}

stored : (gone : Bool) → get (world_one gone).backups "b1" ≡ some (backup_one gone)
unfolding get
stored gone = refl

rescheduled :
    (reconcile slots_cron all_well "b1" (world_one false)).1.cron
    ≡ some ("b1", codes "30 7 * * 0") ∷ none ∷ some ("b2", codes "0 2 * * *") ∷ []
unfolding reconcile line_of create_schedule remove_named listed emptied get put parse_to_cron
    cron_line two_parts split atoi itoa show digits pred_64
rescheduled = refl

kept_done : (reconcile slots_cron all_well "b1" (world_one false)).0 ≡ done
unfolding reconcile line_of create_schedule remove_named listed emptied get put parse_to_cron
    cron_line two_parts split atoi itoa show digits pred_64
kept_done = refl

schedule-Follows_example :
    Follows slots_cron
      (backup_one false)
      weekly
      (reconcile slots_cron all_well "b1" (world_one false)).1.cron
schedule-Follows_example =
    schedule-Follows slots_cron slots_cron-IsCron all_well (backup_one false) weekly "b1"
      (world_one false) (stored false) refl refl kept_done

deleted_done : (reconcile slots_cron all_well "b1" (world_one true)).0 ≡ done
unfolding reconcile cancel_backup get
deleted_done = refl

deleted_gone_example :
    Gone slots_cron (backup_one true) (reconcile slots_cron all_well "b1" (world_one true)).1
deleted_gone_example =
    deleted_gone slots_cron slots_cron-IsCron all_well (backup_one true) "b1" weekly
      (world_one true) (stored true) refl refl deleted_done
