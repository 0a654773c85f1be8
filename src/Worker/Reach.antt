-- ===== src/Worker/Reach.antt =====
-- Every sequence of adding, cancelling, beginning and finishing tasks, of any owners.
pub mod Adding
pub mod Cancelling
pub mod Sound
use backup_server.Base.{
  ℕ, ◌+◌, ◌≤◌, String, ◌≡◌, ◌≢◌, ◌⊎◌, refl, sym, Bool, true, false, not, ◌&&◌, ◌||◌, Option, none,
  some, List, [], ◌∷◌, arith, str_eq, eq_iff, if◌then◌else◌, Dict, get, put, get-put, All, All-mono,
  All-zip, Pairwise, Bool-cases, Option-cases, inl, inr, count, ◌∙◌, ap,
}
use mathlib.Core.Path.{subst}
use backup_server.Worker.Types.{
  Job, backup, restore, Task, TaskPool, WorkerPool, Event, new_task_pool, get_or_create_user_pool,
  is_of_backup, is_of_snapshot, is_of_restore,
}
use backup_server.Worker.Add.{
  range_exists, exists_task, submit, refuse, add_task, backup_task_id, new_backup_task,
  new_restore_task, add_backup_task, add_restore_task,
}
use backup_server.Worker.Cancel.{
  Outcome, pools_after, mark, end_context, store, stop_backup, stop_restore, cancel_backup,
  cancel_snapshot, cancel_restore,
}
use backup_server.Worker.Life.{begin, finish}
use backup_server.Worker.Invariant.{
  live, live_backup, Differ, Linked, IsSound, IsFresh, HasNone, new_task_pool-IsSound,
}
use backup_server.Worker.Invariant.Submit.{submit-IsSound, refuse-IsSound}
use backup_server.Worker.Invariant.Changes.{
  mark-IsSound, end_context-IsSound, begin-IsSound, finish-IsSound,
}

abbrev pub at_pool : (TaskPool → TaskPool) → String → WorkerPool → WorkerPool
at_pool f owner w = elim (get w.user_pools owner) [ none ↦ w | some p ↦ store owner (f p) w ]

-- The pool of an owner holds no task with this id that runs or waits.
abbrev pub IsNew : String → String → WorkerPool → Type 0
IsNew i owner w = IsFresh i (get_or_create_user_pool owner w).0

-- The calls of the server, and what the pools do by themselves. A task is added under an id that
-- no task of its owner that runs or waits has: the ids come from the names of snapshots and
-- restores, which are new.
pub data Step (w : WorkerPool) : WorkerPool → Type 0 where
  adds_backup :
      (accepted : Bool) (owner b s : String)
      → IsNew (backup_task_id b s) owner w
      → Step w (add_backup_task accepted owner b s w).1
  adds_restore :
      (accepted : Bool) (owner r : String)
      → IsNew r owner w
      → Step w (add_restore_task accepted owner r w).1
  cancels_backup : (owner b : String) → Step w (pools_after (cancel_backup owner b w))
  cancels_snapshot : (owner s : String) → Step w (pools_after (cancel_snapshot owner s w))
  cancels_restore : (owner r : String) → Step w (pools_after (cancel_restore owner r w))
  begins : (owner : String) → Step w (at_pool begin owner w)
  finishes : (owner : String) → Step w (at_pool finish owner w)

abbrev pub init : WorkerPool
init = record { user_pools = []; sent = [] }

pub data Reach : WorkerPool → Type 0 where
  start : Reach init
  later : {w x : WorkerPool} → Reach w → Step w x → Reach x

pub record AreSound (w : WorkerPool) : Type 0 where
  pub pool : (owner : String) (p : TaskPool) → get w.user_pools owner ≡ some p → IsSound p

get-put_self :
    (m : Dict TaskPool) (k j : String) (p q : TaskPool)
    → get (put m k p) j ≡ some q
    → str_eq k j ≡ true
    → p ≡ q
get-put_self m k j p q h e = let found : get (put m k p) j ≡ some p = rw (get-put, e) in cc

get-put_other :
    (m : Dict TaskPool) (k j : String) (p q : TaskPool)
    → get (put m k p) j ≡ some q
    → str_eq k j ≡ false
    → get m j ≡ some q
get-put_other m k j p q h e = ground (arith, get-put m k j p)

pub put-AreSound :
    (w : WorkerPool) (owner : String) (p : TaskPool) (sent : List Event)
    → AreSound w
    → IsSound p
    → AreSound (record w { user_pools = put w.user_pools owner p; sent = sent })
put-AreSound w owner p sent v h = record {
  pool = λ o q e. elim (Bool-cases (str_eq owner o)) [
    | inl same ↦ subst IsSound (get-put_self w.user_pools owner o p q e same) h
    | inr other ↦ v.pool o q (get-put_other w.user_pools owner o p q e other)
  ];
}

pub at_pool-AreSound :
    (f : TaskPool → TaskPool) (owner : String) (w : WorkerPool)
    → ((p : TaskPool) → IsSound p → IsSound (f p))
    → AreSound w
    → AreSound (at_pool f owner w)
at_pool-AreSound f owner w keep v = elim (Option-cases (get w.user_pools owner)) [
  | inl e ↦ rw (e, at_pool) v
  | inr g ↦
      rw (g.1, at_pool) (put-AreSound w owner (f g.0) w.sent v (keep g.0 (v.pool owner g.0 g.1)))
]
