-- ===== src/Worker/Add.antt =====
-- Adding tasks: `ExistsTask`, `AddBackupTask`, `AddRestoreTask` and `addTask` of worker.go.
use Prim.Native.String.{◌++◌ as concat}
use backup_server.Base.{
  ℕ, suc, String, Bool, true, false, not, ◌&&◌, ◌||◌, none, some, [], ◌∷◌, ◌++◌, str_eq,
  if◌then◌else◌, Dict, get, put, remove, Result, ok, err,
}
use backup_server.Worker.Types.{
  backup, restore, Task, TaskPool, WorkerPool, Refusal, task_exists, invalid_params, submit_failed,
  update, get_or_create_user_pool, is_of_backup,
}

-- The `Range` of `ExistsTask`: some task of the map is a backup task of this backup and not
-- cancelled.
unfoldable pub range_exists : String → (ℕ → Task) → Dict ℕ → Bool
range_exists b objects [] = false
range_exists b objects ((k, r) ∷ m) =
    (is_of_backup b (objects r).job && not (objects r).canceled) || range_exists b objects m

unfoldable pub exists_task : String → String → WorkerPool → Bool
unfolding range_exists
exists_task owner b w = elim (get w.user_pools owner) [
  | none ↦ false
  | some p ↦ range_exists b p.objects p.tasks
]

-- The object is made, stored under its id and submitted.
unfoldable pub submit : Task → TaskPool → TaskPool
submit t p = record p {
  objects = update p.objects p.allocated t;
  allocated = suc p.allocated;
  tasks = put p.tasks t.id p.allocated;
  waiting = p.waiting ++ p.allocated ∷ [];
}

-- When the pool refuses the function, the task's context ends and its entry is deleted.
unfoldable pub refuse : Task → TaskPool → TaskPool
refuse t p = record p {
  objects = update p.objects p.allocated (record t { ended = true });
  allocated = suc p.allocated;
  tasks = remove (put p.tasks t.id p.allocated) t.id;
}

-- `accepted` is the answer of the pool's `TrySubmit`.
unfoldable pub add_task : Bool → Task → WorkerPool → Result Refusal (Unit {0}) × WorkerPool
unfolding get_or_create_user_pool submit refuse
add_task accepted t w =
    let (p, w') = get_or_create_user_pool t.owner w in
    if accepted
    then (ok tt, record w' { user_pools = put w'.user_pools t.owner (submit t p) })
    else (err submit_failed, record w' { user_pools = put w'.user_pools t.owner (refuse t p) })

-- `fmt.Sprintf("%s_%s", backupId, snapshotId)`
unfoldable pub backup_task_id : String → String → String
backup_task_id b s = concat b (concat "_" s)

abbrev pub new_backup_task : String → String → String → Task
new_backup_task owner b s = record {
  id = backup_task_id b s;
  owner = owner;
  job = backup b s;
  canceled = false;
  ended = false;
}

abbrev pub new_restore_task : String → String → Task
new_restore_task owner r = record {
  id = r;
  owner = owner;
  job = restore r;
  canceled = false;
  ended = false;
}

unfoldable pub add_backup_task :
    Bool → String → String → String → WorkerPool → Result Refusal (Unit {0}) × WorkerPool
unfolding exists_task add_task
add_backup_task accepted owner b s w =
    if exists_task owner b w
    then (err task_exists, w)
    else if str_eq b "" || str_eq s ""
    then (err invalid_params, w)
    else add_task accepted (new_backup_task owner b s) w

unfoldable pub add_restore_task :
    Bool → String → String → WorkerPool → Result Refusal (Unit {0}) × WorkerPool
unfolding add_task
add_restore_task accepted owner r w =
    if str_eq r "" then (err invalid_params, w) else add_task accepted (new_restore_task owner r) w
