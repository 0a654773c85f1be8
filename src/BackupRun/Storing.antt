-- ===== src/BackupRun/Storing.antt =====
-- How `updateBackupResult` of pkg/storage/storage_backup.go stores the result of a run: its attempts,
-- with `UpdateTotalSize` of pkg/handlers/handler_backup.go.
use backup_server.Base.{
  ℕ, zero, suc, false, Option, none, some, [], ◌∷◌, ◌++◌, if◌then◌else◌, Dict, get, put,
}
use backup_server.Base.Bytes.{Bytes}
use backup_server.Base.Int.{pos}
use backup_server.CronText.Numbers.{itoa}
use backup_server.BackupRun.Cloud.{build_location}
use backup_server.BackupRun.Space.{Summary}
use backup_server.BackupRun.Report.{
  Snapshot, Backup, World, Run, Report, Attempt, Object, object_of, Verdict, new_snapshot,
  message_of, stored, missing, unreached, nil, nameless, finished, failed_to_write, again, crashed,
}

-- The part of an attempt behind the two gets; `s` is the snapshot to write, and `none` stands for
-- one without a name, which the API server refuses.
abbrev pub store :
    Run → Report → Attempt → Option Snapshot → Option (Dict Backup) → World → Verdict × World
store r p a s none w = (crashed, w)
store r p a none (some backups) w =
    (failed_to_write, record w { backups = backups; sent = w.sent ++ message_of p ∷ [] })
store r p a (some s) (some backups) w =
    let v = record w { backups = backups; sent = w.sent ++ message_of p ∷ [] } in
    if a.writes_snapshot
    then (finished, record v { snapshots = put w.snapshots r.snapshot s })
    else (failed_to_write, v)

abbrev blank : Snapshot
blank = record {
  backup_id = "";
  snapshot_type = none;
  snapshot_id = none;
  size = none;
  progress = 0;
  phase = "";
  message = [];
  restic_phase = "";
  restic_message = none;
  end_at = none;
  extra = [];
}

abbrev pub go_on : Verdict × World → (World → Verdict × World) → Verdict × World
go_on (again, w) rest = rest w
go_on (finished, w) rest = (finished, w)
go_on (failed_to_write, w) rest = (failed_to_write, w)
go_on (crashed, w) rest = (crashed, w)

module _ (to_json : Bytes → Bytes → Bytes) where
  -- UpdateTotalSize on the object that has been read.
  unfoldable pub with_total_size : Run → ℕ → ℕ → ℕ → Backup → Backup
  with_total_size r now total restore b =
      let c = record b {
        size = some total;
        restore_size = some restore;
        notified = false;
        extra = put b.extra "size_updated" (itoa (pos now));
      } in
      elim (build_location r.location r.integration) [
        | none ↦ c
        | some (kind, name, endpoint) ↦ record c {
          location = put c.location kind (to_json name endpoint);
        }
      ]

  -- What UpdateTotalSize leaves: `none` where a nil pointer is followed, or a nil map is written.
  -- An error of it is only logged.
  unfoldable pub update_total_size :
      Run → Report → Attempt → Summary → Object Backup → Dict Backup → Option (Dict Backup)
  unfolding with_total_size
  update_total_size r p a o (stored b) backups =
      if a.writes_backup
      then some (put backups r.backup (with_total_size r a.now p.total_size o.restore_size b))
      else some backups
  update_total_size r p a o missing backups = some backups
  update_total_size r p a o unreached backups = some backups
  update_total_size r p a o nil backups = none
  update_total_size r p a o nameless backups = elim (build_location r.location r.integration) [
    | none ↦ some backups
    | some l ↦ none
  ]

  abbrev pub total_size_of :
      Run → Report → Attempt → Option Summary → Object Backup → Dict Backup → Option (Dict Backup)
  total_size_of r p a none b backups = some backups
  total_size_of r p a (some o) b backups = update_total_size r p a o b backups

  abbrev pub write_result :
      Run
      → Report
      → Attempt
      → Option Snapshot
      → Option Snapshot
      → Object Backup
      → World
      → Verdict × World
  write_result r p a none kept b w = (crashed, w)
  write_result r p a (some t) kept b w =
      store r p a kept (total_size_of r p a p.output b w.backups) w

  abbrev pub with_snapshot :
      Run → Report → Attempt → Object Backup → Object Snapshot → World → Verdict × World
  with_snapshot r p a b missing w = (finished, w)
  with_snapshot r p a b unreached w = (again, w)
  with_snapshot r p a b nil w = (crashed, w)
  with_snapshot r p a b nameless w = write_result r p a (new_snapshot r p a.now blank) none b w
  with_snapshot r p a b (stored s) w =
      let t = new_snapshot r p a.now s in write_result r p a t t b w

  abbrev pub with_backup : Run → Report → Attempt → Object Backup → World → Verdict × World
  with_backup r p a missing w = (finished, w)
  with_backup r p a unreached w = (again, w)
  with_backup r p a b w =
      with_snapshot r p a b (object_of a.reads_snapshot (get w.snapshots r.snapshot)) w

  -- One attempt; where the context of the run has ended, nothing is stored.
  unfoldable pub try_result : Run → Report → Attempt → World → Verdict × World
  unfolding new_snapshot update_total_size
  try_result r p a w =
      if a.done
      then (finished, w)
      else with_backup r p a (object_of a.reads_backup (get w.backups r.backup)) w

  -- The attempts from the `k`-th on, of which `n` fit into the time; `again` is the error of a poll that has run out of it.
  unfoldable pub poll : Run → Report → (ℕ → Attempt) → ℕ → ℕ → World → Verdict × World
  unfolding try_result
  poll r p answer zero k w = (again, w)
  poll r p answer (suc n) k w =
      go_on (try_result r p (answer k) w) (λ v. poll r p answer n (suc k) v)

  unfoldable pub update_backup_result : Run → Report → (ℕ → Attempt) → ℕ → World → Verdict × World
  unfolding poll
  update_backup_result r p answer n w = poll r p answer n 0 w
