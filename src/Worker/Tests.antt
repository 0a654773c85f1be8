-- ===== src/Worker/Tests.antt =====
-- The pools at concrete inputs: an owner with a backup task that waits, and one with a restore
-- task that runs.
use backup_server.Base.{
  ◌≤◌, String, ◌≡◌, ◌≢◌, refl, true, some, arith, get, put, count, eq_iff, ok, err,
}
use backup_server.Worker.Types.{
  TaskPool, WorkerPool, task_exists, get_or_create_user_pool, is_canceled,
}
use backup_server.Worker.Add.{add_backup_task, add_restore_task, backup_task_id}
use backup_server.Worker.Cancel.{pools_after, cancel_backup}
use backup_server.Worker.Life.{begin}
use backup_server.Worker.Invariant.{live}
use backup_server.Worker.Reach.{at_pool, adds_backup, begins, init, Reach, start, later}
use backup_server.Worker.Reach.Sound.{works_for, one_live_backup_task}
use backup_server.Worker.Effects.{is_panic, runs_restore, cancel_backup_panics}
use backup_server.Worker.Doomed.{IsDoomed, no_step, then_step, canceled_never_runs}

abbrev one_backup : WorkerPool
one_backup = (add_backup_task true "ann" "b1" "s1" init).1

abbrev pool_of : String → WorkerPool → TaskPool
pool_of owner w = (get_or_create_user_pool owner w).0

-- A second task of the same backup is refused while the first is neither done nor cancelled.
add_twice : (add_backup_task true "ann" "b1" "s2" one_backup).0 ≡ err task_exists
unfolding add_backup_task get put
add_twice = refl

add_after_cancel :
    (add_backup_task true "ann" "b1" "s2" (pools_after (cancel_backup "ann" "b1" one_backup))).0
    ≡ ok tt
unfolding add_backup_task cancel_backup get put
add_after_cancel = refl

abbrev two_backups : WorkerPool
two_backups = (add_backup_task true "ann" "b2" "s2" (at_pool begin "ann" one_backup)).1

two_backups-Reach : Reach two_backups
unfolding add_backup_task get_or_create_user_pool begin get put backup_task_id
two_backups-Reach =
    later (later (later start (adds_backup true "ann" "b1" "s1" tt)) (begins "ann"))
      (adds_backup true "ann" "b2" "s2" (ground (arith, eq_iff "b1_s1" "b2_s2"), tt))

one_live_backup_task_example :
    count
      (λ r. works_for "b1" ((pool_of "ann" two_backups).objects r))
      (live (pool_of "ann" two_backups))
    ≤ 1
unfolding add_backup_task get_or_create_user_pool begin get put
one_live_backup_task_example =
    one_live_backup_task "ann" "b1" (pool_of "ann" two_backups) two_backups-Reach refl

abbrev restoring : WorkerPool
restoring = at_pool begin "ann" (add_restore_task true "ann" "r1" init).1

cancel_while_restoring : is_panic (cancel_backup "ann" "b1" restoring) ≡ true
unfolding cancel_backup add_restore_task begin get put
cancel_while_restoring = refl

cancel_backup_panics_example :
    is_panic (cancel_backup "ann" "b1" restoring) ≡ runs_restore (get restoring.user_pools "ann")
cancel_backup_panics_example = cancel_backup_panics "ann" "b1" restoring

abbrev stopped : WorkerPool
stopped = pools_after (cancel_backup "ann" "b1" one_backup)

stopped-IsDoomed : IsDoomed 0 (pool_of "ann" stopped)
unfolding add_backup_task cancel_backup get_or_create_user_pool get put is_canceled
stopped-IsDoomed = record { stored = omega arith; canceled = refl; idle = λ e. cc }

canceled_never_runs_example : (pool_of "ann" (at_pool begin "ann" stopped)).running ≢ some 0
unfolding add_backup_task cancel_backup get_or_create_user_pool begin get put
canceled_never_runs_example =
    canceled_never_runs "ann" 0 (pool_of "ann" stopped)
      (pool_of "ann" (at_pool begin "ann" stopped)) {w = stopped} refl stopped-IsDoomed
      (then_step no_step (begins "ann")) refl
