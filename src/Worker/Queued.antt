-- ===== src/Worker/Queued.antt =====
-- What an added backup task leaves: it is in the map under its id, and waits as the last one.
use backup_server.Base.{
  ℕ, String, ◌≡◌, refl, Bool, true, false, ◌||◌, some, List, [], ◌∷◌, ◌++◌, get, put, get-put_self,
  Bool-cases, inl, inr, ok, str_eq, ==_refl,
}
use backup_server.Worker.Types.{TaskPool, WorkerPool, get_or_create_user_pool}
use backup_server.Worker.Add.{
  backup_task_id, exists_task, submit, add_task, add_backup_task, new_backup_task,
}

-- A new task of this snapshot of the backup is in the pool of the owner, under its id, and waits
-- behind all others.
abbrev pub Queued : String → String → String → WorkerPool → Type 0
Queued owner b s w =
    (p : TaskPool) × (r : ℕ) × (before : List ℕ) × (get w.user_pools owner ≡ some p)
    × (get p.tasks (backup_task_id b s) ≡ some r)
    × (p.objects r ≡ new_backup_task owner b s)
    × (p.waiting ≡ before ++ r ∷ [])

submitted :
    (owner b s : String) (p : TaskPool) (w : WorkerPool)
    → Queued owner b s
        (record w { user_pools = put w.user_pools owner (submit (new_backup_task owner b s) p) })
unfolding submit
submitted owner b s p w = (
  submit (new_backup_task owner b s) p,
  p.allocated,
  p.waiting,
  get-put_self w.user_pools owner _,
  get-put_self p.tasks (backup_task_id b s) p.allocated,
  rw (==_refl p.allocated) refl,
  refl,
)

added-Queued :
    (accepted : Bool) (owner b s : String) (w : WorkerPool)
    → (add_task accepted (new_backup_task owner b s) w).0 ≡ ok tt
    → Queued owner b s (add_task accepted (new_backup_task owner b s) w).1
unfolding add_task
added-Queued true owner b s w h =
    let (p, w') = get_or_create_user_pool owner w in submitted owner b s p w'
added-Queued false owner b s w h = cc

-- When `AddBackupTask` reports no error, the task of the snapshot is queued.
pub add_backup_task-Queued :
    (accepted : Bool) (owner b s : String) (w : WorkerPool)
    → (add_backup_task accepted owner b s w).0 ≡ ok tt
    → Queued owner b s (add_backup_task accepted owner b s w).1
unfolding add_backup_task
add_backup_task-Queued accepted owner b s w = elim (Bool-cases (exists_task owner b w)) [
  | inl e ↦ rw (e, add_backup_task) (λ h. cc)
  | inr n ↦ elim (Bool-cases (str_eq b "" || str_eq s "")) [
    | inl e ↦ rw (n, e, add_backup_task) (λ h. cc)
    | inr m ↦ rw (n, m, add_backup_task) (added-Queued accepted owner b s w)
  ]
]
