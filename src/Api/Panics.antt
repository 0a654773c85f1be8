-- ===== src/Api/Panics.antt =====
-- The requests that stop at a nil pointer, and what a request to cancel a snapshot leaves.
use backup_server.Base.{
  ◌≡◌, ◌≢◌, ◌↔◌, refl, String, str_eq, eq_iff, Bool, true, false, ◌||◌, Option, none, some, Dict,
  get, get-put_self, arith, Bool-cases, inl, inr,
}
use backup_server.Snapshots.Types.{Snapshot, is_final}
use backup_server.Snapshots.Handler.{update_phase, get_by_id, update, with_phase}
use backup_server.Backups.{Backup}
use backup_server.Restores.{Restore}
use backup_server.Api.{
  World, Reply, success, refused, panicked, Answers, found, with_backup, of_write, of_handler,
  cancel_found, cancel_read, cancel_snapshot, update_restore_phase, stop_restore, delete_stopped,
  cancel_restore_found, cancel_restore,
}

module _ (a : Answers) (id : String) where
  refused_no : {A : Type 0} → refused ≡ success → A
  refused_no h = cc

  panicked_no : {A : Type 0} → panicked ≡ success → A
  panicked_no h = cc

  refused_not : {A : Type 0} → refused ≡ panicked → A
  refused_not h = cc

  success_not : {A : Type 0} → success ≡ panicked → A
  success_not h = cc

  of_write-not : (x : Bool × World) → (of_write a x).0 ≢ panicked
  of_write-not (true, w) = λ h. success_not h
  of_write-not (false, w) = λ h. refused_not h

  delete-not : (event : String) (x : Bool × World) → (delete_stopped a event id x).0 ≢ panicked
  delete-not event (false, w) = λ h. refused_not h
  delete-not event (true, w) = elim (Bool-cases (str_eq event "delete")) [
    | inl y ↦ λ h. of_write-not (update_restore_phase a a.then_writes id "Deleted" w) (rw y at h)
    | inr n ↦ λ h. success_not (rw n at h)
  ]

  found-not :
      (event : String) (x : Option Restore) (w : World)
      → (cancel_restore_found a event id x w).0 ≢ panicked
  found-not event none w = λ h. refused_not h
  found-not event (some r) w = delete-not event (stop_restore a id r w)

  -- A request to cancel a restore panics exactly when its event is neither to cancel nor to delete: the
  -- error of its answer is nil then.
  pub wrong_event_panics :
      (event : String) (w : World)
      → ((cancel_restore a event id w).0 ≡ panicked) ↔ ((event ≢ "cancel") × (event ≢ "delete"))
  unfolding cancel_restore
  wrong_event_panics event w = elim (Bool-cases (str_eq event "cancel" || str_eq event "delete")) [
    | inl y ↦ (
      λ h. absurd (found-not event (found a.reads (get w.restores id)) w (rw y at h)),
      λ h. ground (arith, eq_iff event "cancel", eq_iff event "delete"),
    )
    | inr n ↦ (
      λ h. (λ e. ground (arith, eq_iff event "cancel"), λ e. ground (arith, eq_iff event "delete")),
      λ h. rw n refl,
    )
  ]

  -- The phase of the snapshot is final.
  abbrev pub Final : World → Type 0
  Final w = (t : Snapshot) × (get w.snapshots id ≡ some t) × (is_final t.phase ≡ true)

  update-stored :
      (read wrote : Bool) (s : Snapshot) (store : Dict Snapshot)
      → get store id ≡ some s
      → s.name ≡ id
      → of_handler a (update_phase read wrote a.now id "Canceled" "Task canceled." store).0
        ≡ success
      → get (update_phase read wrote a.now id "Canceled" "Task canceled." store).1 id
        ≡ some (with_phase a.now "Canceled" "Task canceled." s)
  unfolding update_phase get_by_id update
  update-stored false wrote s store there name h = refused_no h
  update-stored true false s store there name h = refused_no (rw (there, of_handler) at h)
  update-stored true true s store there name h =
      rw (update_phase, there, name) (get-put_self store id _)

  cancel_found-Final :
      (s : Snapshot) (w : World)
      → get w.snapshots id ≡ some s
      → s.name ≡ id
      → (cancel_found a id s w).0 ≡ success
      → Final (cancel_found a id s w).1
  cancel_found-Final s w there name h =
      elim (Bool-cases (str_eq s.phase "Failed" || str_eq s.phase "Completed")) [
        | inl y ↦ rw y (s, there, ground arith)
        | inr n ↦ rw n (
          with_phase a.now "Canceled" "Task canceled." s,
          update-stored a.again a.writes s w.snapshots there name (rw n at h),
          refl,
        )
      ]

  cancel_read-Final :
      (b : Bool) (x : Option Snapshot) (w : World)
      → ((s : Snapshot) → x ≡ some s → (get w.snapshots id ≡ some s) × (s.name ≡ id))
      → (cancel_read a b id x w).0 ≡ success
      → Final (cancel_read a b id x w).1
  cancel_read-Final false x w h k = refused_no k
  cancel_read-Final true none w h k = panicked_no k
  cancel_read-Final true (some s) w h k = cancel_found-Final s w (h s refl).0 (h s refl).1 k

  with_backup-Final :
      (x : Option Backup) (w : World) (next : Backup → Reply × World)
      → ((b : Backup) → (next b).0 ≡ success → Final (next b).1)
      → (with_backup a x w next).0 ≡ success
      → Final (with_backup a x w next).1
  with_backup-Final none w next h k = refused_no k
  with_backup-Final (some b) w next h k = h b k

  -- A request to cancel a snapshot that succeeds leaves it stored in a final phase; a snapshot is taken
  -- to be stored under its name.
  pub cancel_snapshot-Final :
      (event backup : String) (w : World)
      → ((s : Snapshot) → get w.snapshots id ≡ some s → s.name ≡ id)
      → (cancel_snapshot a event backup id w).0 ≡ success
      → Final (cancel_snapshot a event backup id w).1
  unfolding cancel_snapshot
  cancel_snapshot-Final event backup w named h = elim (Bool-cases (str_eq event "cancel")) [
    | inr n ↦ panicked_no (rw n at h)
    | inl y ↦ rw y (
        with_backup-Final (found a.reads_backup (get w.backups backup)) w
          (λ b. cancel_read a a.reads id (get w.snapshots id) w)
          (λ b k. cancel_read-Final a.reads (get w.snapshots id) w (λ s e. (e, named s e)) k)
          (rw y at h))
  ]

  -- A request to cancel a snapshot that does not exist, of a backup that does, panics instead of
  -- being refused: the client gives an object that is empty, not nil.
  pub missing_snapshot_panics :
      (backup : String) (b : Backup) (w : World)
      → a.reads_backup ≡ true
      → get w.backups backup ≡ some b
      → a.reads ≡ true
      → get w.snapshots id ≡ none
      → cancel_snapshot a "cancel" backup id w ≡ (panicked, w)
  unfolding cancel_snapshot
  missing_snapshot_panics backup b w reads_b there reads missing =
      rw (reads_b, there, reads, missing) refl
