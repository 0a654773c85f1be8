-- ===== src/Worker/Reach/Sound.antt =====
-- What holds of the pools after any sequence of steps.
use backup_server.Base.{
  ℕ, ◌≤◌, String, ◌≡◌, refl, Bool, true, false, not, ◌&&◌, some, List, [], ◌∷◌, arith, eq_iff, get,
  All, Pairwise, Bool-cases, inl, inr, count,
}
use backup_server.Worker.Types.{Job, backup, restore, Task, TaskPool, WorkerPool, is_of_backup}
use backup_server.Worker.Life.{begin, finish}
use backup_server.Worker.Invariant.{backup_of, live, live_backup, Differ}
use backup_server.Worker.Invariant.Changes.{begin-IsSound, finish-IsSound}
use backup_server.Worker.Reach.{
  Step, adds_backup, adds_restore, cancels_backup, cancels_snapshot, cancels_restore, begins,
  finishes, init, Reach, start, later, AreSound, at_pool-AreSound,
}
use backup_server.Worker.Reach.Adding.{add_backup_task-AreSound, add_restore_task-AreSound}
use backup_server.Worker.Reach.Cancelling.{
  cancel_backup-AreSound, cancel_snapshot-AreSound, cancel_restore-AreSound,
}

init-AreSound : AreSound init
unfolding get
init-AreSound = record { pool = λ owner p e. cc }

pub Step-AreSound : {w x : WorkerPool} → Step w x → AreSound w → AreSound x
Step-AreSound {w} (adds_backup accepted owner b s fresh) v =
    add_backup_task-AreSound accepted owner b s w fresh v
Step-AreSound {w} (adds_restore accepted owner r fresh) v =
    add_restore_task-AreSound accepted owner r w fresh v
Step-AreSound {w} (cancels_backup owner b) v = cancel_backup-AreSound owner b w v
Step-AreSound {w} (cancels_snapshot owner s) v = cancel_snapshot-AreSound owner s w v
Step-AreSound {w} (cancels_restore owner r) v = cancel_restore-AreSound owner r w v
Step-AreSound {w} (begins owner) v = at_pool-AreSound begin owner w begin-IsSound v
Step-AreSound {w} (finishes owner) v = at_pool-AreSound finish owner w finish-IsSound v

pub Reach-AreSound : {w : WorkerPool} → Reach w → AreSound w
Reach-AreSound start = init-AreSound
Reach-AreSound (later r st) = Step-AreSound st (Reach-AreSound r)

-- Is it a backup task of this backup that is not cancelled?
unfoldable pub works_for : String → Task → Bool
works_for b t = is_of_backup b t.job && not t.canceled

picked : (b : String) (j : Job) → is_of_backup b j ≡ true → backup_of j ≡ some b
picked b (backup c s) h = ground (arith, eq_iff c b)
picked b (restore r) h = cc

works_for-live_backup : (b : String) (t : Task) → works_for b t ≡ true → live_backup t ≡ some b
unfolding works_for
works_for-live_backup b t h = ground (arith, picked b t.job)

rivals : (b : String) (t u : Task) → Differ t u → works_for b t ≡ true → works_for b u ≡ false
rivals b t u d h = elim (Bool-cases (works_for b u)) [
  | inl k ↦ absurd (d.1 b (works_for-live_backup b t h) (works_for-live_backup b u k))
  | inr k ↦ k
]

none_later :
    (f : ℕ → Task) (b : String) (r : ℕ) (l : List ℕ)
    → All (λ s. Differ (f r) (f s)) l
    → works_for b (f r) ≡ true
    → count (λ s. works_for b (f s)) l ≡ 0
unfolding count
none_later f b r [] d h = refl
none_later f b r (s ∷ l) d h = rw (rivals b (f r) (f s) d.0 h) (none_later f b r l d.1 h)

one_at_most :
    (f : ℕ → Task) (b : String) (l : List ℕ)
    → Pairwise (λ r s. Differ (f r) (f s)) l
    → count (λ r. works_for b (f r)) l ≤ 1
unfolding count
one_at_most f b [] h = omega arith
one_at_most f b (r ∷ l) h = ground (arith, none_later f b r l h.0, one_at_most f b l h.1)

-- In every state that is reached by tasks whose ids are new in their owner's pool, cancels, begins
-- and ends, of all the tasks of an owner that wait or run at most one is a backup task of a given
-- backup that is not cancelled.
pub one_live_backup_task :
    {w : WorkerPool} (owner b : String) (p : TaskPool)
    → Reach w
    → get w.user_pools owner ≡ some p
    → count (λ r. works_for b (p.objects r)) (live p) ≤ 1
one_live_backup_task owner b p r e =
    one_at_most p.objects b (live p) ((Reach-AreSound r).pool owner p e).apart
