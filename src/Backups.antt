-- ===== src/Backups.antt =====
-- The backup controller: pkg/controllers/backup_controller.go, with the calls of
-- pkg/handlers/handler_backup.go and pkg/handlers/handler_snapshot.go that it makes.
pub mod Scheduled
pub mod Deleted
mod Tests
use backup_server.Base.{
  ℕ, String, str_eq, Bool, true, false, not, ◌&&◌, Option, none, some, List, [], ◌∷◌, if◌then◌else◌,
  Dict, get, put, remove, Result, ok, err,
}
use backup_server.Base.Bytes.{Bytes}
use backup_server.Base.Int.{ℤ}
use backup_server.CronText.{parse_to_cron, CronError}
use backup_server.Schedule.{Cron, remove_from_schedule, create_schedule, scheduled, refused}
use backup_server.Snapshots.Types.{Snapshot}
use backup_server.Worker.Types.{WorkerPool}
use backup_server.Worker.Cancel as Cancel
use backup_server.Worker.Cancel.{cancel_backup}

-- BackupPolicy
pub record Policy : Type 0 where
  pub enabled : Bool
  pub frequency : String
  pub times_of_day : Bytes
  pub day_of_week : ℤ
  pub date_of_month : ℤ

-- The fields of a Backup that the controller looks at; the location is the one that
-- GetBackupLocationConfig reads, and `none` where it gives no configuration.
pub record Backup : Type 0 where
  pub name : String
  pub owner : String
  pub location : Option String
  pub policy : Option Policy
  pub deleted : Bool
  pub notified : Bool

-- What the controller reads and writes.
pub record World (c : Cron) : Type 0 where
  pub backups : Dict Backup
  pub snapshots : Dict Snapshot
  pub pools : WorkerPool
  pub cron : c.State

-- What the world outside answers in one call: the client, the API server's get, its deletion of
-- the snapshots, the token of the space where it is asked for, its deletion of the backup, the
-- notification of the backup, and the API server's get and update that store that it is notified.
pub record Answers : Type 0 where
  pub client : Bool
  pub reads : Bool
  pub deletes_snapshots : Bool
  pub has_token : Bool
  pub deletes : Bool
  pub notifies : Bool
  pub marks : Bool

pub data Outcome : Type 0 where
  done failed_now crashed : Outcome
  again : ℕ → Outcome

-- The collection of the snapshots of a backup is deleted.
unfoldable pub delete_snapshots : String → Dict Snapshot → Dict Snapshot
delete_snapshots b [] = []
delete_snapshots b ((k, s) ∷ store) =
    let rest = delete_snapshots b store in if str_eq s.backup_id b then rest else (k, s) ∷ rest

-- ParseToCron, whose error is dropped.
unfoldable pub line_of : Policy → Bytes
line_of p = elim (parse_to_cron p.frequency p.times_of_day p.day_of_week p.date_of_month) [
  | err e ↦ []
  | ok line ↦ line
]

abbrev pub is_space : Option String → Bool
is_space none = false
is_space (some location) = str_eq location "space"

module _ (c : Cron) (a : Answers) where
  -- DeleteBackup. Whether the space is told that the backup stops is not looked at.
  unfoldable pub delete_backup : Backup → World c → Bool × World c
  delete_backup b w =
      if not a.deletes_snapshots
      then (false, w)
      else (let v = record w { snapshots = delete_snapshots b.name w.snapshots } in
          if is_space b.location && not a.has_token
          then (false, v)
          else if not a.deletes
          then (false, v)
          else (true, record v { backups = remove v.backups b.name }))

  unfoldable pub on_deleted : Backup → World c → Outcome × World c
  unfolding delete_backup
  on_deleted b w = elim (cancel_backup b.owner b.name w.pools) [
    | Cancel.panicked pools ↦ (crashed, record w { pools = pools })
    | Cancel.returned pools ↦
        (let v = record w { pools = pools; cron = remove_from_schedule c b.name w.cron } in
          let (ok_, u) = delete_backup b v in if ok_ then (done, u) else (again 5, u))
  ]

  -- UpdateNotifyState
  unfoldable pub mark_notified : Backup → World c → Bool × World c
  mark_notified b w = if not a.marks then (false, w) else elim (get w.backups b.name) [
    | none ↦ (false, w)
    | some x ↦ (true, record w { backups = put w.backups b.name (record x { notified = true }) })
  ]

  -- notify: only a backup in the space is notified, and every one is marked.
  unfoldable pub notify : Backup → World c → Bool × World c
  unfolding mark_notified
  notify b w = elim b.location [
    | none ↦ (false, w)
    | some location ↦
        if not (str_eq location "space")
        then mark_notified b w
        else if not a.has_token
        then (false, w)
        else if not a.notifies
        then (false, w)
        else mark_notified b w
  ]

  -- reconcileBackupPolicies
  unfoldable pub reconcile_backup_policies : Backup → Policy → World c → Outcome × World c
  reconcile_backup_policies b p w = elim (create_schedule c b.name (line_of p) w.cron) [
    | refused s ↦ (failed_now, record w { cron = s })
    | scheduled s ↦ (done, record w { cron = s })
  ]

  unfoldable pub on_enabled : Backup → Policy → World c → Outcome × World c
  unfolding reconcile_backup_policies
  on_enabled b p w =
      if not p.enabled
      then (done, record w { cron = remove_from_schedule c b.name w.cron })
      else reconcile_backup_policies b p w

  unfoldable pub on_kept : Backup → Policy → World c → Outcome × World c
  unfolding on_enabled notify
  on_kept b p w =
      if b.notified
      then on_enabled b p w
      else (let (ok_, v) = notify b w in if ok_ then on_enabled b p v else (again 5, v))

  -- The policy is looked at before anything else is done.
  unfoldable pub reconcile : String → World c → Outcome × World c
  unfolding on_deleted on_kept
  reconcile id w =
      if not a.client
      then (again 3, w)
      else if not a.reads
      then (failed_now, w)
      else elim (get w.backups id) [
        | none ↦ (done, w)
        | some b ↦ elim b.policy [
          | none ↦ (crashed, w)
          | some p ↦ if b.deleted then on_deleted b w else on_kept b p w
        ]
      ]
