-- ===== src/Api.antt =====
-- The requests that change objects: the handlers of pkg/modules/backup/v1/handler.go, with what they
-- call of pkg/handlers. A handler that writes an error which is nil panics, as do the errors that
-- errors.WithMessagef makes of a nil error.
pub mod Stopped
pub mod Panics
pub mod Texts
pub mod Restoring
pub mod Plans
pub mod Planned
pub mod Accepted
mod Tests
mod PlanTests
use backup_server.Base.{
  ℕ, String, str_eq, Bool, true, false, not, ◌||◌, Option, none, some, List, [], ◌∷◌, if◌then◌else◌,
  Dict, get, put, Result, ok, err,
}
use backup_server.Base.Int.{pos}
use backup_server.Snapshots.Types.{Snapshot, push}
use backup_server.Snapshots.Handler as Handler
use backup_server.Snapshots.Handler.{replied, update_phase}
use backup_server.Backups.{Backup, Policy}
use backup_server.Restores.{Restore}

pub record World : Type 0 where
  pub backups : Dict Backup
  pub snapshots : Dict Snapshot
  pub restores : Dict Restore

-- The answer to a request.
pub data Reply : Type 0 where
  success refused panicked : Reply

-- What the API server answers while one request is handled: the gets of a backup and of the other
-- object, the get and the update of its phase, the second update where there is one, and the id of a
-- new object.
pub record Answers : Type 0 where
  pub reads_backup : Bool
  pub reads : Bool
  pub again : Bool
  pub writes : Bool
  pub then_writes : Bool
  pub now : ℕ
  pub new_id : String

-- The object of a get, if it is read and there.
abbrev pub found : {V : Type 0} → Bool → Option V → Option V
found true x = x
found false x = none

module _ (a : Answers) where
  abbrev pub store_backup : Backup → World → Reply × World
  store_backup b w =
      if a.writes then (success, record w { backups = put w.backups b.name b }) else (refused, w)

  abbrev pub with_backup : Option Backup → World → (Backup → Reply × World) → Reply × World
  with_backup none w next = (refused, w)
  with_backup (some b) w next = next b

  -- deleteBackupPlan
  unfoldable pub delete_backup_plan : String → World → Reply × World
  delete_backup_plan id w =
      with_backup (found a.reads_backup (get w.backups id)) w
        (λ b. store_backup (record b { deleted = true }) w)

  abbrev with_policy : Bool → Backup → Option Policy → World → Reply × World
  with_policy on b none w = (panicked, w)
  with_policy on b (some p) w =
      store_backup (record b { policy = some (record p { enabled = on }) }) w

  -- enabledBackupPlan, with the event in lower case.
  unfoldable pub enabled_backup_plan : String → String → World → Reply × World
  enabled_backup_plan event id w =
      if not (str_eq event "pause" || str_eq event "resume")
      then (panicked, w)
      else with_backup (found a.reads_backup (get w.backups id)) w
          (λ b. with_policy (str_eq event "resume") b b.policy w)

  -- Create of the snapshots.
  abbrev pub new_snapshot : String → Snapshot
  new_snapshot backup = record {
    name = a.new_id;
    created = a.now;
    backup_id = backup;
    phase = "Pending";
    message = "";
    progress = pos 0;
    start_at = a.now;
    end_at = none;
    extra = push (record { prepare = false; progress = false; result = false });
  }

  abbrev create_snapshot : Backup → World → Reply × World
  create_snapshot b w =
      if a.writes
      then (success, record w { snapshots = put w.snapshots a.new_id (new_snapshot b.name) })
      else (refused, w)

  -- addSnapshot
  unfoldable pub add_snapshot : String → String → World → Reply × World
  add_snapshot event id w =
      if not (str_eq event "create")
      then (refused, w)
      else if str_eq id ""
      then (refused, w)
      else with_backup (found a.reads_backup (get w.backups id)) w
          (λ b. if b.deleted then (panicked, w) else create_snapshot b w)

  abbrev pub of_handler : Handler.Reply → Reply
  of_handler (replied (ok u)) = success
  of_handler (replied (err e)) = refused
  of_handler Handler.panicked = panicked

  abbrev pub cancel_found : String → Snapshot → World → Reply × World
  cancel_found id s w =
      if str_eq s.phase "Failed" || str_eq s.phase "Completed"
      then (success, w)
      else (let (r, store) =
            update_phase a.again a.writes a.now id "Canceled" "Task canceled." w.snapshots in
          (of_handler r, record w { snapshots = store }))

  -- The client gives an object without a phase where there is none, so it is not nil.
  abbrev pub cancel_read : Bool → String → Option Snapshot → World → Reply × World
  cancel_read false id x w = (refused, w)
  cancel_read true id none w = (panicked, w)
  cancel_read true id (some s) w = cancel_found id s w

  -- cancelSnapshot
  unfoldable pub cancel_snapshot : String → String → String → World → Reply × World
  cancel_snapshot event backup id w =
      if not (str_eq event "cancel")
      then (panicked, w)
      else with_backup (found a.reads_backup (get w.backups backup)) w
          (λ b. cancel_read a.reads id (get w.snapshots id) w)

  -- UpdatePhase of the restores, for a phase that is not Running; `writes` is the answer to its gets
  -- and its update.
  unfoldable pub update_restore_phase : Bool → String → String → World → Bool × World
  update_restore_phase writes id phase w =
      if not writes then (false, w) else elim (get w.restores id) [
        | none ↦ (false, w)
        | some r ↦ (true, record w { restores = put w.restores id (record r { phase = phase }) })
      ]

  abbrev pub stop_restore : String → Restore → World → Bool × World
  stop_restore id r w =
      if str_eq r.phase "Pending" || str_eq r.phase "Running"
      then update_restore_phase a.writes id "Canceled" w
      else (true, w)

  abbrev pub of_write : Bool × World → Reply × World
  of_write (true, w) = (success, w)
  of_write (false, w) = (refused, w)

  abbrev pub delete_stopped : String → String → Bool × World → Reply × World
  delete_stopped event id (false, w) = (refused, w)
  delete_stopped event id (true, w) =
      if str_eq event "delete"
      then of_write (update_restore_phase a.then_writes id "Deleted" w)
      else (success, w)

  abbrev pub cancel_restore_found : String → String → Option Restore → World → Reply × World
  cancel_restore_found event id none w = (refused, w)
  cancel_restore_found event id (some r) w = delete_stopped event id (stop_restore id r w)

  -- cancelRestore
  unfoldable pub cancel_restore : String → String → World → Reply × World
  unfolding update_restore_phase
  cancel_restore event id w =
      if not (str_eq event "cancel" || str_eq event "delete")
      then (panicked, w)
      else cancel_restore_found event id (found a.reads (get w.restores id)) w
