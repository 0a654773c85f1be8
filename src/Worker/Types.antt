-- ===== src/Worker/Types.antt =====
-- pkg/worker/entity.go and the types of pkg/worker/worker.go. Tasks are shared objects: the map of
-- tasks, the queue and the active task point to them, so a pool holds its objects in a store and
-- the three hold references.
use backup_server.Base.{
  ℕ, String, Bool, false, Option, none, some, List, [], str_eq, ◌==◌, if◌then◌else◌, Dict, get, put,
}

-- The two kinds of task, with the ids that each kind has.
pub data Job : Type 0 where
  backup : String → String → Job
  restore : String → Job

-- `BaseTask` with what its task adds; `ended` says that the task's context was cancelled.
pub record Task : Type 0 where
  pub id : String
  pub owner : String
  pub job : Job
  pub canceled : Bool
  pub ended : Bool

-- `TaskPool`. Of the pond pool: the tasks submitted that have not begun, and the one that runs, as
-- the pool is made for `MaxConcurrency` (1) worker.
pub record TaskPool : Type 0 where
  pub objects : ℕ → Task
  pub allocated : ℕ
  pub tasks : Dict ℕ
  pub active : Option ℕ
  pub waiting : List ℕ
  pub running : Option ℕ

-- What `notification.DataSender` is given for an owner.
pub data Event : Type 0 where
  backup_canceled : String → String → String → Event
  restore_canceled : String → String → Event

-- `WorkerPool`, and the events sent so far, the latest first.
pub record WorkerPool : Type 0 where
  pub user_pools : Dict TaskPool
  pub sent : List Event

pub data Refusal : Type 0 where
  task_exists invalid_params submit_failed : Refusal

abbrev pub update {ℓ} : {A : Type ℓ} → (ℕ → A) → ℕ → A → ℕ → A
update f i a j = if i == j then a else f j

-- A new pool: nothing is stored, so what its store holds is never looked at.
unfoldable pub new_task_pool : TaskPool
new_task_pool = record {
  objects = λ _. record { id = ""; owner = ""; job = restore ""; canceled = false; ended = false };
  allocated = 0;
  tasks = [];
  active = none;
  waiting = [];
  running = none;
}

-- The pool of an owner, made and stored when there is none.
unfoldable pub get_or_create_user_pool : String → WorkerPool → TaskPool × WorkerPool
unfolding new_task_pool
get_or_create_user_pool owner w = elim (get w.user_pools owner) [
  | some p ↦ (p, w)
  | none ↦ (new_task_pool, record w { user_pools = put w.user_pools owner new_task_pool })
]

unfoldable pub is_canceled : TaskPool → ℕ → Bool
is_canceled p r = (p.objects r).canceled

-- Is the task a backup task of this backup, of this snapshot, a restore task of this restore?
abbrev pub is_of_backup : String → Job → Bool
is_of_backup b (backup b' s) = str_eq b' b
is_of_backup b (restore r) = false

abbrev pub is_of_snapshot : String → Job → Bool
is_of_snapshot s (backup b s') = str_eq s' s
is_of_snapshot s (restore r) = false

abbrev pub is_of_restore : String → Job → Bool
is_of_restore r (backup b s) = false
is_of_restore r (restore r') = str_eq r' r
