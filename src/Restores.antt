-- ===== src/Restores.antt =====
-- The restore controller: pkg/controllers/restore_controller.go, with `SetRestorePhase` and
-- `DeleteRestore` of pkg/handlers/handler_restore.go.
pub mod Settled
mod Tests
use backup_server.Base.{
  ℕ, zero, suc, ◌+◌, String, str_eq, Bool, true, false, not, ◌&&◌, Option, none, some, List, [],
  ◌∷◌, if◌then◌else◌, Dict, get, put, remove, ltb, Result, ok, err,
}
use backup_server.Worker.Types.{WorkerPool}
use backup_server.Worker.Add.{add_restore_task}
use backup_server.Worker.Cancel as Cancel
use backup_server.Worker.Cancel.{cancel_restore}

-- Spec.RestoreType, by what is read from it: no type, data that is no JSON of the type, or a type.
pub data RestoreType : Type 0 where
  untyped unreadable readable : RestoreType

pub record Restore : Type 0 where
  pub name : String
  pub created : ℕ
  pub owner : String
  pub restore_type : RestoreType
  pub phase : String
  pub message : String
  pub progress : ℕ
  pub end_at : Option ℕ

pub record World : Type 0 where
  pub restores : Dict Restore
  pub pools : WorkerPool

-- One attempt to set a phase: the get fails, the update conflicts or is refused, or it is written.
pub data Attempt : Type 0 where
  unread conflict refused written : Attempt

-- What the world outside answers while one event is handled: the client, the attempts to set a phase, whether
-- the pond pool accepts a task, and whether the API server answers the get and the deletion.
pub record Answers : Type 0 where
  pub has_client : Bool
  pub attempt : ℕ → Attempt
  pub accepts : Bool
  pub reads : Bool
  pub deletes : Bool

abbrev pub restart_message : String
restart_message = "Backup task terminated due to service restart."

abbrev pub canceled_message : String
canceled_message = "Task canceled."

abbrev message_for : String → String → String
message_for phase old =
    if str_eq phase "Canceled"
    then canceled_message
    else if str_eq phase "Failed"
    then restart_message
    else old

abbrev pub with_phase : ℕ → String → Restore → Restore
with_phase now phase r = record r {
  phase = phase;
  end_at = some now;
  message = message_for phase r.message;
}

-- One attempt, with the object that its get finds; `next` is what the later ones do.
abbrev pub try_phase :
    Attempt
    → Option Restore
    → ℕ
    → String
    → String
    → Dict Restore
    → Bool × Dict Restore
    → Bool × Dict Restore
try_phase unread found now id phase store next = next
try_phase conflict found now id phase store next = next
try_phase refused found now id phase store next = next
try_phase written none now id phase store next = next
try_phase written (some r) now id phase store next = (true, put store id (with_phase now phase r))

-- The attempts from the `k`-th on; every error is tried again, with the object read anew.
unfoldable pub set_phase_from :
    Answers → ℕ → ℕ → ℕ → String → String → Dict Restore → Bool × Dict Restore
set_phase_from a zero k now id phase store = (false, store)
set_phase_from a (suc steps) k now id phase store =
    try_phase (a.attempt k) (get store id) now id phase store
      (set_phase_from a steps (suc k) now id phase store)

-- SetRestorePhase, with its five steps.
unfoldable pub set_restore_phase :
    Answers → ℕ → String → String → Dict Restore → Bool × Dict Restore
unfolding set_phase_from
set_restore_phase a now id phase store =
    if a.has_client then set_phase_from a 5 0 now id phase store else (false, store)

-- The branches of CreateFunc: what is left where nothing is done, where the restore fails, and
-- where it is pending.
abbrev pub by_phase : RestoreType → String → World → World → World → World
by_phase untyped phase kept fails pends = kept
by_phase unreadable phase kept fails pends = fails
by_phase readable phase kept fails pends =
    if str_eq phase "Pending" then pends else if str_eq phase "Running" then fails else kept

module _ (a : Answers) (now : ℕ) where
  -- The answer of SetRestorePhase is only logged.
  unfoldable pub fail_restore : Restore → World → World
  fail_restore r w = record w { restores = (set_restore_phase a now r.name "Failed" w.restores).1 }

  unfoldable pub on_pending : ℕ → Restore → World → World
  unfolding fail_restore
  on_pending started r w =
      if ltb started r.created
      then (let (done, pools) = add_restore_task a.accepts r.owner r.name w.pools in
          elim done [
            | ok u ↦ record w { pools = pools }
            | err e ↦ fail_restore r (record w { pools = pools })
          ])
      else fail_restore r w

  -- CreateFunc, which never asks for a reconciliation.
  unfoldable pub create_event : ℕ → Restore → World → World
  unfolding on_pending
  create_event started r w =
      by_phase r.restore_type r.phase w (fail_restore r w) (on_pending started r w)

  -- DeleteRestore
  unfoldable pub delete_restore : String → Dict Restore → Dict Restore
  delete_restore id store = if a.has_client && a.reads && a.deletes then remove store id else store

  -- UpdateFunc of objects whose specs differ or not, as `changed` says. `true` stands for a panic.
  unfoldable pub update_event : Bool → Restore → Restore → World → Bool × World
  unfolding delete_restore
  update_event changed old new w =
      if not changed
      then (false, w)
      else if str_eq old.phase new.phase && str_eq new.phase "Running"
      then (false, w)
      else if str_eq new.phase "Failed"
      then (false, w)
      else if str_eq new.phase "Canceled"
      then elim (cancel_restore new.owner new.name w.pools) [
        | Cancel.returned pools ↦ (false, record w { pools = pools })
        | Cancel.panicked pools ↦ (true, record w { pools = pools })
      ]
      else if str_eq new.phase "Deleted"
      then (false, record w { restores = delete_restore new.name w.restores })
      else (false, w)
