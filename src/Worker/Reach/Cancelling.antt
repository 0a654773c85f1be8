-- ===== src/Worker/Reach/Cancelling.antt =====
-- A cancel keeps every pool sound, whether it returns or panics.
use backup_server.Base.{
  ℕ, String, ◌≡◌, ◌⊎◌, Bool, Option, none, some, arith, get, put, Option-cases, inl, inr,
}
use backup_server.Worker.Types.{
  Job, TaskPool, WorkerPool, is_of_backup, is_of_snapshot, is_of_restore,
}
use backup_server.Worker.Cancel.{
  Outcome, returned, pools_after, mark, end_context, store, stop_backup, stop_restore,
  cancel_backup, cancel_snapshot, cancel_restore,
}
use backup_server.Worker.Invariant.{IsSound}
use backup_server.Worker.Invariant.Changes.{mark-IsSound, end_context-IsSound}
use backup_server.Worker.Reach.{AreSound, put-AreSound}

-- Whether it returns or panics, a stop stores the pool, perhaps with the context of one task ended.
module _ (owner : String) (picks : Job → Bool) (r : ℕ) (p : TaskPool) (w : WorkerPool) where
  abbrev Stored : Outcome → TaskPool → Type 0
  Stored out q =
      pools_after out
      ≡ record w { user_pools = put w.user_pools owner q; sent = (pools_after out).sent }

  stop_backup-Stored :
      Stored (stop_backup owner picks r p w) p
      ⊎ Stored (stop_backup owner picks r p w) (end_context r p)
  unfolding stop_backup end_context
  stop_backup-Stored = ground arith

  stop_restore-Stored :
      Stored (stop_restore owner picks r p w) p
      ⊎ Stored (stop_restore owner picks r p w) (end_context r p)
  unfolding stop_restore end_context
  stop_restore-Stored = ground arith

  Stored-AreSound :
      (out : Outcome)
      → Stored out p ⊎ Stored out (end_context r p)
      → IsSound p
      → AreSound w
      → AreSound (pools_after out)
  Stored-AreSound out (inl e) h v = rw e (put-AreSound w owner p (pools_after out).sent v h)
  Stored-AreSound out (inr e) h v =
      rw e (
        put-AreSound w owner (end_context r p) (pools_after out).sent v (end_context-IsSound r p h))

-- The pool is marked, and the active task is stopped if there is one.
marked-AreSound :
    (owner : String) (picks : Job → Bool) (p : TaskPool) (w : WorkerPool) (stop : ℕ → Outcome)
    (a : Option ℕ)
    → ((r : ℕ)
        → Stored owner picks r (mark picks p) w (stop r) (mark picks p)
          ⊎ Stored owner picks r (mark picks p) w (stop r) (end_context r (mark picks p)))
    → IsSound p
    → AreSound w
    → AreSound
        (pools_after (elim a [ none ↦ returned (store owner (mark picks p) w) | some r ↦ stop r ]))
marked-AreSound owner picks p w stop none h s v =
    put-AreSound w owner _ w.sent v (mark-IsSound picks p s)
marked-AreSound owner picks p w stop (some r) h s v =
    Stored-AreSound owner picks r (mark picks p) w (stop r) (h r) (mark-IsSound picks p s) v

pub cancel_backup-AreSound :
    (owner i : String) (w : WorkerPool)
    → AreSound w
    → AreSound (pools_after (cancel_backup owner i w))
unfolding cancel_backup
cancel_backup-AreSound owner i w v = elim (Option-cases (get w.user_pools owner)) [
  | inl e ↦ rw (e, cancel_backup) v
  | inr g ↦
      rw (g.1, cancel_backup)
        (marked-AreSound owner (is_of_backup i) g.0 w
          (λ r. stop_backup owner (is_of_backup i) r (mark (is_of_backup i) g.0) w) g.0.active
          (λ r. stop_backup-Stored owner (is_of_backup i) r (mark (is_of_backup i) g.0) w)
          (v.pool owner g.0 g.1) v)
]

pub cancel_snapshot-AreSound :
    (owner i : String) (w : WorkerPool)
    → AreSound w
    → AreSound (pools_after (cancel_snapshot owner i w))
unfolding cancel_snapshot
cancel_snapshot-AreSound owner i w v = elim (Option-cases (get w.user_pools owner)) [
  | inl e ↦ rw (e, cancel_snapshot) v
  | inr g ↦
      rw (g.1, cancel_snapshot)
        (marked-AreSound owner (is_of_snapshot i) g.0 w
          (λ r. stop_backup owner (is_of_snapshot i) r (mark (is_of_snapshot i) g.0) w) g.0.active
          (λ r. stop_backup-Stored owner (is_of_snapshot i) r (mark (is_of_snapshot i) g.0) w)
          (v.pool owner g.0 g.1) v)
]

pub cancel_restore-AreSound :
    (owner i : String) (w : WorkerPool)
    → AreSound w
    → AreSound (pools_after (cancel_restore owner i w))
unfolding cancel_restore
cancel_restore-AreSound owner i w v = elim (Option-cases (get w.user_pools owner)) [
  | inl e ↦ rw (e, cancel_restore) v
  | inr g ↦
      rw (g.1, cancel_restore)
        (marked-AreSound owner (is_of_restore i) g.0 w
          (λ r. stop_restore owner (is_of_restore i) r (mark (is_of_restore i) g.0) w) g.0.active
          (λ r. stop_restore-Stored owner (is_of_restore i) r (mark (is_of_restore i) g.0) w)
          (v.pool owner g.0 g.1) v)
]
