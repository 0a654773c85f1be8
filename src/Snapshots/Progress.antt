-- ===== src/Snapshots/Progress.antt =====
-- Progress of a running snapshot.
use backup_server.Base.{
  String, str_eq, ◌≡◌, Bool, true, false, some, Dict, get, get-put, ok, arith, eq_iff, Bool-cases,
  inl, inr,
}
use text.Mathlib.TextPositions.{eq_refl}
use backup_server.Base.Int.{ℤ}
use backup_server.Snapshots.Types.{Snapshot, running}
use backup_server.Snapshots.Handler.{replied, update, update_progress}
use backup_server.Snapshots.Events.{ignores, is_running_progress, update_event}

progress_ignored :
    (s : Snapshot) (percent : ℤ)
    → s.phase ≡ running
    → update_event s (record s { progress = percent }) ≡ ignores
unfolding update_event is_running_progress
progress_ignored s percent e = rw e (ground arith)

written :
    (wrote : Bool) (t : Snapshot) (store : Dict Snapshot)
    → (update wrote t store).0 ≡ replied (ok tt)
    → get (update wrote t store).1 t.name ≡ some t
unfolding update
written true t store h = rw (get-put, eq_refl)
written false t store h = cc

-- What the progress is written on is a running snapshot that is stored.
module _ (read wrote : Bool) (id : String) (percent : ℤ) (store : Dict Snapshot) (s : Snapshot)
    (f : get store id ≡ some s) (named : s.name ≡ id) where
  -- An update of the progress of a snapshot that is stored under its name, when it reports no error,
  -- finds the snapshot running, changes nothing but its progress, and its event is not reconciled.
  pub update_progress_lem :
      (update_progress read wrote id percent store).0 ≡ replied (ok tt)
      → (s.phase ≡ running)
        × (get (update_progress read wrote id percent store).1 id
            ≡ some (record s { progress = percent }))
        × (update_event s (record s { progress = percent }) ≡ ignores)
  unfolding update_progress
  update_progress_lem = elim (Bool-cases read) [
    | inr r ↦ rw r (λ h. cc)
    | inl r ↦ elim (Bool-cases (str_eq s.phase running)) [
      | inr p ↦ rw (r, f, update_progress, p) (λ h. cc)
      | inl p ↦
          let runs = (eq_iff s.phase running).0 p in
          rw (r, f, update_progress, p)
            (λ h. (
              runs,
              rw (← named) (written wrote (record s { progress = percent }) store h),
              progress_ignored s percent runs,
            ))
    ]
  ]
