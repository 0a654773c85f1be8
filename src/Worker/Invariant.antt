-- ===== src/Worker/Invariant.antt =====
-- What holds of every task pool: the tasks that run or wait have ids of their own, those not
-- cancelled are found under their ids, and no two of these back up the same backup.
pub mod Submit
pub mod Changes
use backup_server.Base.{
  ℕ, suc, ◌<◌, String, ◌≡◌, ◌≢◌, refl, sym, Bool, true, false, Option, none, some, List, [], ◌∷◌,
  ◌++◌, arith, str_eq, eq_iff, if◌then◌else◌, ◌==◌, Dict, get, put, remove, get-put, get-remove,
  All, All-append, All-mono, All-zip, Pairwise, Pairwise-snoc,
}
use backup_server.Worker.Types.{
  Job, backup, restore, Task, TaskPool, update, new_task_pool, is_canceled, is_of_backup,
}
use backup_server.Worker.Add.{submit, refuse}
use backup_server.Worker.Cancel.{range_cancel, mark, end_context}
use backup_server.Worker.Life.{clean_up, begin_task, begin, finish}

-- The tasks that run or wait.
abbrev pub live : TaskPool → List ℕ
live p = elim p.running [ none ↦ p.waiting | some r ↦ r ∷ p.waiting ]

abbrev pub backup_of : Job → Option String
backup_of (backup b s) = some b
backup_of (restore r) = none

-- The backup that a task not cancelled works for.
abbrev pub live_backup : Task → Option String
live_backup t = if t.canceled then none else backup_of t.job

abbrev pub Differ : Task → Task → Type 0
Differ t u = (t.id ≢ u.id) × ((b : String) → live_backup t ≡ some b → live_backup u ≡ some b → ⊥)

abbrev pub Linked : TaskPool → ℕ → Type 0
Linked p r = (p.objects r).canceled ≡ false → get p.tasks (p.objects r).id ≡ some r

pub record IsSound (p : TaskPool) : Type 0 where
  pub stored : All (λ r. r < p.allocated) (live p)
  pub linked : All (Linked p) (live p)
  pub apart : Pairwise (λ r s. Differ (p.objects r) (p.objects s)) (live p)
  pub active_runs : (r : ℕ) → p.active ≡ some r → p.running ≡ some r

pub new_task_pool-IsSound : IsSound new_task_pool
unfolding new_task_pool
new_task_pool-IsSound = record { stored = tt; linked = tt; apart = tt; active_runs = λ r h. cc }

-- A store whose tasks have the same ids and jobs, and are cancelled if they were.
pub record Follows (f g : ℕ → Task) (r : ℕ) : Type 0 where
  pub id : (g r).id ≡ (f r).id
  pub job : (g r).job ≡ (f r).job
  pub canceled : (g r).canceled ≡ false → (f r).canceled ≡ false

pub live_backup-Follows :
    (f g : ℕ → Task) (r : ℕ) (b : String)
    → Follows f g r
    → live_backup (g r) ≡ some b
    → live_backup (f r) ≡ some b
live_backup-Follows f g r b h e = ground arith

Differ-Follows :
    (f g : ℕ → Task) (r s : ℕ)
    → Follows f g r
    → Follows f g s
    → Differ (f r) (f s)
    → Differ (g r) (g s)
Differ-Follows f g r s hr hs d = (
  rw (hr.id, hs.id) d.0,
  λ b er es. d.1 b (live_backup-Follows f g r b hr er) (live_backup-Follows f g s b hs es),
)

pub Pairwise-Follows :
    (f g : ℕ → Task) (l : List ℕ)
    → All (Follows f g) l
    → Pairwise (λ r s. Differ (f r) (f s)) l
    → Pairwise (λ r s. Differ (g r) (g s)) l
Pairwise-Follows f g [] h p = tt
Pairwise-Follows f g (r ∷ l) h p =
    (All-zip (λ s hs d. Differ-Follows f g r s h.0 hs d) l h.1 p.0, Pairwise-Follows f g l h.1 p.1)

-- No task that runs or waits has this id.
abbrev pub IsFresh : String → TaskPool → Type 0
IsFresh i p = All (λ r. (p.objects r).id ≢ i) (live p)

-- No task that runs or waits, and is not cancelled, backs up the backup of this task.
abbrev pub HasNone : Task → TaskPool → Type 0
HasNone t p =
    (b : String) → live_backup t ≡ some b → All (λ r. live_backup (p.objects r) ≢ some b) (live p)
