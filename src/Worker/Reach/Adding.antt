-- ===== src/Worker/Reach/Adding.antt =====
-- Adding a task keeps every pool sound.
use backup_server.Base.{
  ℕ, String, ◌≡◌, ◌≢◌, refl, Bool, true, false, not, ◌&&◌, ◌||◌, some, [], ◌∷◌, arith, str_eq,
  eq_iff, Dict, get, All-mono, Bool-cases, Option-cases, inl, inr, ◌∙◌, ap,
}
use backup_server.Worker.Types.{
  backup, Task, TaskPool, WorkerPool, new_task_pool, get_or_create_user_pool, is_of_backup,
}
use backup_server.Worker.Add.{
  range_exists, exists_task, submit, refuse, add_task, backup_task_id, new_backup_task,
  new_restore_task, add_backup_task, add_restore_task,
}
use backup_server.Worker.Invariant.{live, live_backup, IsSound, HasNone, new_task_pool-IsSound}
use backup_server.Worker.Invariant.Submit.{submit-IsSound, refuse-IsSound}
use backup_server.Worker.Reach.{IsNew, AreSound, put-AreSound}

range_exists_all :
    (b : String) (f : ℕ → Task) (m : Dict ℕ) (k : String) (r : ℕ)
    → range_exists b f m ≡ false
    → get m k ≡ some r
    → (is_of_backup b (f r).job && not (f r).canceled) ≡ false
unfolding range_exists get
range_exists_all b f [] k r h g = cc
range_exists_all b f ((j, s) ∷ m) k r h g = ground (arith, range_exists_all b f m k r)

live_backup_found :
    (b : String) (t : Task)
    → live_backup t ≡ some b
    → (is_of_backup b t.job && not t.canceled) ≡ true
live_backup_found b t e = ground (arith, eq_iff b b)

live_backup_canceled : (b : String) (t : Task) → live_backup t ≡ some b → t.canceled ≡ false
live_backup_canceled b t e = ground arith

live_backup_job : (b c s : String) (t : Task) → live_backup t ≡ some b → t.job ≡ backup c s → b ≡ c
live_backup_job b c s t e j = ground arith

live_backup_absent :
    (b : String) (t : Task)
    → (is_of_backup b t.job && not t.canceled) ≡ false
    → live_backup t ≢ some b
live_backup_absent b t h e = ground (arith, live_backup_found b t)

-- What `ExistsTask` did not find is not there.
range_exists-HasNone :
    (b s : String) (t : Task) (p : TaskPool)
    → t.job ≡ backup b s
    → range_exists b p.objects p.tasks ≡ false
    → IsSound p
    → HasNone t p
range_exists-HasNone b s t p j none_there v b' e =
    let same : b' ≡ b = live_backup_job b' b s t e j in
    All-mono {Q = λ r. live_backup (p.objects r) ≢ some b'}
      (λ r l h.
        live_backup_absent b (p.objects r)
          (range_exists_all b p.objects p.tasks (p.objects r).id r none_there
            (l (live_backup_canceled b' (p.objects r) h)))
          (h ∙ ap some same))
      (live p) v.linked

pool_of :
    (owner : String) (w : WorkerPool) → AreSound w → IsSound (get_or_create_user_pool owner w).0
unfolding get_or_create_user_pool
pool_of owner w v = elim (Option-cases (get w.user_pools owner)) [
  | inl e ↦ rw (e, get_or_create_user_pool) new_task_pool-IsSound
  | inr g ↦ rw (g.1, get_or_create_user_pool) (v.pool owner g.0 g.1)
]

created :
    (owner : String) (w : WorkerPool) → AreSound w → AreSound (get_or_create_user_pool owner w).1
unfolding get_or_create_user_pool
created owner w v = elim (Option-cases (get w.user_pools owner)) [
  | inl e ↦
      rw (e, get_or_create_user_pool)
        (put-AreSound w owner new_task_pool w.sent v new_task_pool-IsSound)
  | inr g ↦ rw (g.1, get_or_create_user_pool) v
]

add_task-AreSound :
    (accepted : Bool) (t : Task) (w : WorkerPool)
    → AreSound w
    → IsNew t.id t.owner w
    → HasNone t (get_or_create_user_pool t.owner w).0
    → AreSound (add_task accepted t w).1
unfolding add_task
add_task-AreSound true t w v fresh others =
    let (p, w') = get_or_create_user_pool t.owner w in
    put-AreSound w' t.owner (submit t p) w'.sent (created t.owner w v)
      (submit-IsSound t p (pool_of t.owner w v) fresh others)
add_task-AreSound false t w v fresh others =
    let (p, w') = get_or_create_user_pool t.owner w in
    put-AreSound w' t.owner (refuse t p) w'.sent (created t.owner w v)
      (refuse-IsSound t p (pool_of t.owner w v) fresh)

restore-HasNone : (owner r : String) (p : TaskPool) → HasNone (new_restore_task owner r) p
restore-HasNone owner r p b e = cc

sound_backup :
    (owner b s : String) (w : WorkerPool)
    → exists_task owner b w ≡ false
    → AreSound w
    → HasNone (new_backup_task owner b s) (get_or_create_user_pool owner w).0
unfolding exists_task get_or_create_user_pool
sound_backup owner b s w h v = elim (Option-cases (get w.user_pools owner)) [
  | inl e ↦ rw (e, get_or_create_user_pool) (unfold new_task_pool in λ b' e'. tt)
  | inr g ↦
      rw (g.1, get_or_create_user_pool)
        (range_exists-HasNone b s (new_backup_task owner b s) g.0 refl (rw (g.1, exists_task) at h)
          (v.pool owner g.0 g.1))
]

pub add_backup_task-AreSound :
    (accepted : Bool) (owner b s : String) (w : WorkerPool)
    → IsNew (backup_task_id b s) owner w
    → AreSound w
    → AreSound (add_backup_task accepted owner b s w).1
unfolding add_backup_task
add_backup_task-AreSound accepted owner b s w fresh v = elim (Bool-cases (exists_task owner b w)) [
  | inl found ↦ rw found v
  | inr free ↦ rw free (elim (Bool-cases (str_eq b "" || str_eq s "")) [
    | inl bad ↦ rw bad v
    | inr fine ↦ rw fine (
        add_task-AreSound accepted (new_backup_task owner b s) w v fresh
          (sound_backup owner b s w free v))
  ])
]

pub add_restore_task-AreSound :
    (accepted : Bool) (owner r : String) (w : WorkerPool)
    → IsNew r owner w
    → AreSound w
    → AreSound (add_restore_task accepted owner r w).1
unfolding add_restore_task
add_restore_task-AreSound accepted owner r w fresh v = elim (Bool-cases (str_eq r "")) [
  | inl bad ↦ rw bad v
  | inr fine ↦ rw fine (
      add_task-AreSound accepted (new_restore_task owner r) w v fresh
        (restore-HasNone owner r (get_or_create_user_pool owner w).0))
]
