-- ===== src/Worker/Cancel.antt =====
-- Cancelling: `CancelBackup`, `CancelSnapshot` and `CancelRestore` of worker.go.
use backup_server.Base.{ℕ, String, Bool, true, none, some, [], ◌∷◌, if◌then◌else◌, Dict, get, put}
use backup_server.Worker.Types.{
  Job, backup, restore, Task, TaskPool, backup_canceled, restore_canceled, WorkerPool, update,
  is_of_backup, is_of_snapshot, is_of_restore,
}

-- A call that returns, or that panics at a type assertion, with the pools as it leaves them.
pub data Outcome : Type 0 where
  returned : WorkerPool → Outcome
  panicked : WorkerPool → Outcome

abbrev pub pools_after : Outcome → WorkerPool
pools_after (returned w) = w
pools_after (panicked w) = w

-- The `Range` of a cancel: the tasks of the map that the test picks are marked.
unfoldable pub range_cancel : (Job → Bool) → Dict ℕ → (ℕ → Task) → ℕ → Task
range_cancel picks [] objects = objects
range_cancel picks ((k, r) ∷ m) objects = range_cancel picks m (
    if picks (objects r).job
    then update objects r (record (objects r) { canceled = true })
    else objects)

unfoldable pub mark : (Job → Bool) → TaskPool → TaskPool
unfolding range_cancel
mark picks p = record p { objects = range_cancel picks p.tasks p.objects }

-- `cancel()` of the task's context
unfoldable pub end_context : ℕ → TaskPool → TaskPool
end_context r p = record p { objects = update p.objects r (record (p.objects r) { ended = true }) }

abbrev pub store : String → TaskPool → WorkerPool → WorkerPool
store owner p w = record w { user_pools = put w.user_pools owner p }

-- The active task is asserted to be a backup task.
unfoldable pub stop_backup : String → (Job → Bool) → ℕ → TaskPool → WorkerPool → Outcome
unfolding end_context
stop_backup owner picks r p w = elim (p.objects r).job [
  | restore i ↦ panicked (store owner p w)
  | backup b s ↦
      if picks (backup b s)
      then returned (
          store owner (end_context r p)
            (record w { sent = backup_canceled (p.objects r).owner b s ∷ w.sent }))
      else returned (store owner p w)
]

-- The active task is asserted to be a restore task.
unfoldable pub stop_restore : String → (Job → Bool) → ℕ → TaskPool → WorkerPool → Outcome
unfolding end_context
stop_restore owner picks r p w = elim (p.objects r).job [
  | backup b s ↦ panicked (store owner p w)
  | restore i ↦
      if picks (restore i)
      then returned (
          store owner (end_context r p)
            (record w { sent = restore_canceled (p.objects r).owner i ∷ w.sent }))
      else returned (store owner p w)
]

unfoldable pub cancel_backup : String → String → WorkerPool → Outcome
unfolding mark stop_backup
cancel_backup owner b w = elim (get w.user_pools owner) [
  | none ↦ returned w
  | some p ↦ elim p.active [
    | none ↦ returned (store owner (mark (is_of_backup b) p) w)
    | some r ↦ stop_backup owner (is_of_backup b) r (mark (is_of_backup b) p) w
  ]
]

unfoldable pub cancel_snapshot : String → String → WorkerPool → Outcome
unfolding mark stop_backup
cancel_snapshot owner s w = elim (get w.user_pools owner) [
  | none ↦ returned w
  | some p ↦ elim p.active [
    | none ↦ returned (store owner (mark (is_of_snapshot s) p) w)
    | some r ↦ stop_backup owner (is_of_snapshot s) r (mark (is_of_snapshot s) p) w
  ]
]

unfoldable pub cancel_restore : String → String → WorkerPool → Outcome
unfolding mark stop_restore
cancel_restore owner i w = elim (get w.user_pools owner) [
  | none ↦ returned w
  | some p ↦ elim p.active [
    | none ↦ returned (store owner (mark (is_of_restore i) p) w)
    | some r ↦ stop_restore owner (is_of_restore i) r (mark (is_of_restore i) p) w
  ]
]
