-- ===== src/Worker/Effects.antt =====
-- What a cancel does: exactly the tasks it names are marked, a new task of the backup can be added
-- afterwards, and when it panics.
use backup_server.Base.{
  ℕ, String, ◌≡◌, ◌⊎◌, refl, Bool, true, false, not, ◌&&◌, ◌||◌, Option, none, some, [], ◌∷◌, arith,
  if◌then◌else◌, ◌==◌, Dict, get, put, get-put, Option-cases, inl, inr, ap, ◌∙◌,
}
use text.Mathlib.TextPositions.{eq_refl}
use backup_server.Worker.Types.{
  Job, backup, restore, Task, TaskPool, WorkerPool, update, is_of_backup, is_of_restore,
}
use backup_server.Worker.Add.{range_exists, exists_task}
use backup_server.Worker.Cancel.{
  Outcome, returned, panicked, pools_after, range_cancel, mark, stop_backup, stop_restore,
  end_context, cancel_backup, cancel_restore,
}

-- Does the map hold this object?
abbrev pub holds : ℕ → Dict ℕ → Bool
holds r [] = false
holds r ((k, s) ∷ m) = (s == r) || holds r m

job-step :
    (picks : Job → Bool) (f : ℕ → Task) (s r : ℕ)
    → ((if picks (f s).job then update f s (record (f s) { canceled = true }) else f) r).job
      ≡ (f r).job
job-step picks f s r = ground arith

canceled-step :
    (picks : Job → Bool) (f : ℕ → Task) (s r : ℕ)
    → ((if picks (f s).job then update f s (record (f s) { canceled = true }) else f) r).canceled
      ≡ ((f r).canceled || ((s == r) && picks (f r).job))
canceled-step picks f s r = ground arith

-- After the loop of a cancel a task is cancelled exactly if it was, or if the map of tasks holds
-- it and it is one of those that are cancelled.
pub canceled-range_cancel :
    (picks : Job → Bool) (m : Dict ℕ) (f : ℕ → Task) (r : ℕ)
    → (range_cancel picks m f r).canceled ≡ ((f r).canceled || (holds r m && picks (f r).job))
unfolding range_cancel
canceled-range_cancel picks [] f r = ground arith
canceled-range_cancel picks ((k, s) ∷ m) f r = ground (
  arith,
  canceled-step picks f s r,
  job-step picks f s r,
  canceled-range_cancel picks m
      (if picks (f s).job then update f s (record (f s) { canceled = true }) else f) r,
)

pub job-range_cancel :
    (picks : Job → Bool) (m : Dict ℕ) (f : ℕ → Task) (r : ℕ)
    → (range_cancel picks m f r).job ≡ (f r).job
unfolding range_cancel
job-range_cancel picks [] f r = refl
job-range_cancel picks ((k, s) ∷ m) f r = ground (
  arith,
  job-step picks f s r,
  job-range_cancel picks m
      (if picks (f s).job then update f s (record (f s) { canceled = true }) else f) r,
)

-- Entries that are all held and picked are all cancelled.
range_exists_after :
    (b : String) (m all : Dict ℕ) (f : ℕ → Task)
    → ((r : ℕ) → holds r m ≡ true → holds r all ≡ true)
    → range_exists b (range_cancel (is_of_backup b) all f) m ≡ false
unfolding range_exists
range_exists_after b [] all f h = refl
range_exists_after b ((k, r) ∷ m) all f h = ground (
  arith,
  canceled-range_cancel (is_of_backup b) all f r,
  job-range_cancel (is_of_backup b) all f r,
  h r,
  range_exists_after b m all f (λ s g. h s (ground arith)),
)

pub range_exists-mark :
    (b : String) (p : TaskPool)
    → range_exists b (mark (is_of_backup b) p).objects (mark (is_of_backup b) p).tasks ≡ false
unfolding mark
range_exists-mark b p = range_exists_after b p.tasks p.tasks p.objects (λ r h. h)

end_step :
    (f : ℕ → Task) (s r : ℕ)
    → ((update f s (record (f s) { ended = true }) r).job ≡ (f r).job)
      × ((update f s (record (f s) { ended = true }) r).canceled ≡ (f r).canceled)
end_step f s r = (ground arith, ground arith)

range_exists-end :
    (b : String) (m : Dict ℕ) (f : ℕ → Task) (s : ℕ)
    → range_exists b (update f s (record (f s) { ended = true })) m ≡ range_exists b f m
unfolding range_exists
range_exists-end b [] f s = refl
range_exists-end b ((k, r) ∷ m) f s =
    ground (arith, (end_step f s r).0, (end_step f s r).1, range_exists-end b m f s)

-- A pool that is stored for the owner decides what `ExistsTask` answers.
exists_task-store :
    (owner b : String) (p : TaskPool) (w v : WorkerPool)
    → v.user_pools ≡ put w.user_pools owner p
    → range_exists b p.objects p.tasks ≡ false
    → exists_task owner b v ≡ false
unfolding exists_task
exists_task-store owner b p w v e h = rw (e, get-put, eq_refl, exists_task) h

-- The same for a pool with the context of one task ended.
module _ (owner b : String) (r : ℕ) (p : TaskPool) (w : WorkerPool)
    (h : range_exists b p.objects p.tasks ≡ false) where
  exists_task-ended :
      (v : WorkerPool)
      → v.user_pools ≡ put w.user_pools owner (end_context r p)
      → exists_task owner b v ≡ false
  unfolding end_context
  exists_task-ended v e =
      exists_task-store owner b (end_context r p) w v e
        (rw (range_exists-end b p.tasks p.objects r) h)

  stopped :
      (picks : Job → Bool)
      → exists_task owner b (pools_after (stop_backup owner picks r p w)) ≡ false
  stopped picks = elim (stored picks) [
    | inl e ↦ exists_task-store owner b p w _ e h
    | inr e ↦ exists_task-ended _ e
  ]
    where
      stored :
          (picks : Job → Bool)
          → ((pools_after (stop_backup owner picks r p w)).user_pools ≡ put w.user_pools owner p)
            ⊎ ((pools_after (stop_backup owner picks r p w)).user_pools
                ≡ put w.user_pools owner (end_context r p))
      stored picks = unfold stop_backup end_context in ground arith

-- After `CancelBackup`, whether it returns or panics, `ExistsTask` finds no task of the backup.
pub exists_task-cancel_backup :
    (owner b : String) (w : WorkerPool)
    → exists_task owner b (pools_after (cancel_backup owner b w)) ≡ false
unfolding cancel_backup
exists_task-cancel_backup owner b w = elim (Option-cases (get w.user_pools owner)) [
  | inl e ↦ rw (e, cancel_backup) (unfold exists_task in rw (e, exists_task))
  | inr g ↦
      rw (g.1, cancel_backup)
        (elim (Option-cases g.0.active) [
          | inl i ↦
              rw (i, cancel_backup) (exists_task-store owner b _ w _ refl (range_exists-mark b g.0))
          | inr a ↦
              rw (a.1, cancel_backup)
                (stopped owner b a.0 (mark (is_of_backup b) g.0) w (range_exists-mark b g.0)
                  (is_of_backup b))
        ])
]

abbrev pub is_panic : Outcome → Bool
is_panic (returned w) = false
is_panic (panicked w) = true

abbrev is_restore : Job → Bool
is_restore (backup b s) = false
is_restore (restore r) = true

-- The active task of the owner is of this kind.
abbrev pub runs_restore : Option TaskPool → Bool
runs_restore none = false
runs_restore (some p) = elim p.active [ none ↦ false | some r ↦ is_restore (p.objects r).job ]

abbrev pub runs_backup : Option TaskPool → Bool
runs_backup none = false
runs_backup (some p) = elim p.active [ none ↦ false | some r ↦ not (is_restore (p.objects r).job) ]

is_panic-stop_backup :
    (owner : String) (picks : Job → Bool) (r : ℕ) (p : TaskPool) (w : WorkerPool)
    → is_panic (stop_backup owner picks r p w) ≡ is_restore (p.objects r).job
unfolding stop_backup
is_panic-stop_backup owner picks r p w = ground arith

is_panic-stop_restore :
    (owner : String) (picks : Job → Bool) (r : ℕ) (p : TaskPool) (w : WorkerPool)
    → is_panic (stop_restore owner picks r p w) ≡ not (is_restore (p.objects r).job)
unfolding stop_restore
is_panic-stop_restore owner picks r p w = ground arith

-- `CancelBackup` panics exactly when the owner's active task is a restore task, of whatever id.
pub cancel_backup_panics :
    (owner b : String) (w : WorkerPool)
    → is_panic (cancel_backup owner b w) ≡ runs_restore (get w.user_pools owner)
unfolding cancel_backup mark
cancel_backup_panics owner b w = elim (Option-cases (get w.user_pools owner)) [
  | inl e ↦ rw (e, cancel_backup)
  | inr g ↦
      rw (g.1, cancel_backup)
        (elim (Option-cases g.0.active) [
          | inl i ↦ rw (i, cancel_backup)
          | inr a ↦
              rw (a.1, cancel_backup)
                (is_panic-stop_backup owner (is_of_backup b) a.0 (mark (is_of_backup b) g.0) w
                  ∙ ap is_restore (job-range_cancel (is_of_backup b) g.0.tasks g.0.objects a.0))
        ])
]

-- `CancelRestore` panics exactly when the owner's active task is a backup task, of whatever id.
pub cancel_restore_panics :
    (owner i : String) (w : WorkerPool)
    → is_panic (cancel_restore owner i w) ≡ runs_backup (get w.user_pools owner)
unfolding cancel_restore mark
cancel_restore_panics owner i w = elim (Option-cases (get w.user_pools owner)) [
  | inl e ↦ rw (e, cancel_restore)
  | inr g ↦
      rw (g.1, cancel_restore)
        (elim (Option-cases g.0.active) [
          | inl e ↦ rw (e, cancel_restore)
          | inr a ↦
              rw (a.1, cancel_restore)
                (is_panic-stop_restore owner (is_of_restore i) a.0 (mark (is_of_restore i) g.0) w
                  ∙ ap (λ (j : Job). not (is_restore j))
                      (job-range_cancel (is_of_restore i) g.0.tasks g.0.objects a.0))
        ])
]
