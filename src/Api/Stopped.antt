-- ===== src/Api/Stopped.antt =====
-- What a request to cancel or to delete leaves.
use backup_server.Base.{
  ◌≡◌, ◌≢◌, refl, String, str_eq, eq_iff, Bool, true, false, ◌||◌, Option, none, some, get,
  get-put_self, arith, Bool-cases, Option-cases, inl, inr,
}
use backup_server.Restores.{Restore}
use backup_server.Api.{
  World, success, refused, panicked, of_write, Answers, found, update_restore_phase, stop_restore,
  delete_stopped, cancel_restore_found, cancel_restore,
}

module _ (a : Answers) (id : String) where
  -- The restore is stored in a phase that P holds of.
  abbrev pub StoredIn : (String → Type 0) → World → Type 0
  StoredIn P w = (t : Restore) × (get w.restores id ≡ some t) × P t.phase

  abbrev pub IsStopped : String → Type 0
  IsStopped phase = (phase ≢ "Pending") × (phase ≢ "Running")

  refused_no : {A : Type 0} → refused ≡ success → A
  refused_no h = cc

  panicked_no : {A : Type 0} → panicked ≡ success → A
  panicked_no h = cc

  cc_absurd : {A : Type 0} → false ≡ true → A
  cc_absurd h = cc

  update-StoredIn :
      (writes : Bool) (phase : String) (w : World)
      → (update_restore_phase a writes id phase w).0 ≡ true
      → StoredIn (λ x. x ≡ phase) (update_restore_phase a writes id phase w).1
  unfolding update_restore_phase
  update-StoredIn false phase w h = cc
  update-StoredIn true phase w h = elim (Option-cases (get w.restores id)) [
    | inl e ↦ cc_absurd (rw e at h)
    | inr e ↦ rw (e.1) (_, get-put_self w.restores id _, refl)
  ]

  not_live :
      (phase : String)
      → (str_eq phase "Pending" || str_eq phase "Running") ≡ false
      → IsStopped phase
  not_live phase h =
      (λ e. ground (arith, eq_iff phase "Pending"), λ e. ground (arith, eq_iff phase "Running"))

  canceled-IsStopped : IsStopped "Canceled"
  canceled-IsStopped = (
    λ h. ground (arith, eq_iff "Canceled" "Pending"),
    λ h. ground (arith, eq_iff "Canceled" "Running"),
  )

  stop-StoredIn :
      (r : Restore) (w : World)
      → get w.restores id ≡ some r
      → (stop_restore a id r w).0 ≡ true
      → StoredIn IsStopped (stop_restore a id r w).1
  stop-StoredIn r w there h =
      elim (Bool-cases (str_eq r.phase "Pending" || str_eq r.phase "Running")) [
        | inr n ↦ rw n (r, there, not_live r.phase n)
        | inl y ↦ rw y (
            let (t, e, p) = update-StoredIn a.writes "Canceled" w (rw y at h) in
            (t, e, rw p canceled-IsStopped))
      ]

  -- The phase that is asked for: none in which a run waits or goes on, and Deleted where the event is
  -- to delete.
  abbrev pub AsAsked : String → String → Type 0
  AsAsked event phase = (event ≡ "delete" → phase ≡ "Deleted") × IsStopped phase

  deleted-IsStopped : IsStopped "Deleted"
  deleted-IsStopped = (
    λ h. ground (arith, eq_iff "Deleted" "Pending"),
    λ h. ground (arith, eq_iff "Deleted" "Running"),
  )

  written :
      (P : String → Type 0) (x : Bool × World)
      → (x.0 ≡ true → StoredIn P x.1)
      → (of_write a x).0 ≡ success
      → StoredIn P (of_write a x).1
  written P (true, w) h k = h refl
  written P (false, w) h k = refused_no k

  delete-StoredIn :
      (event : String) (x : Bool × World)
      → (x.0 ≡ true → StoredIn IsStopped x.1)
      → (delete_stopped a event id x).0 ≡ success
      → StoredIn (AsAsked event) (delete_stopped a event id x).1
  delete-StoredIn event (false, w) h k = refused_no k
  delete-StoredIn event (true, w) h k = elim (Bool-cases (str_eq event "delete")) [
    | inr n ↦
        (let (t, e, p) = h refl in rw n (t, e, ((λ d. ground (arith, eq_iff event "delete")), p)))
    | inl y ↦ rw y (
        written (AsAsked event) (update_restore_phase a a.then_writes id "Deleted" w)
          (λ ok_.
            (let (t, e, p) = update-StoredIn a.then_writes "Deleted" w ok_ in
              (t, e, ((λ d. p), rw p deleted-IsStopped))))
          (rw y at k))
  ]

  found-StoredIn :
      (event : String) (x : Option Restore) (w : World)
      → ((r : Restore) → x ≡ some r → get w.restores id ≡ some r)
      → (cancel_restore_found a event id x w).0 ≡ success
      → StoredIn (AsAsked event) (cancel_restore_found a event id x w).1
  found-StoredIn event none w h k = refused_no k
  found-StoredIn event (some r) w h k =
      delete-StoredIn event (stop_restore a id r w) (stop-StoredIn r w (h r refl)) k

  found-same : (b : Bool) (x : Option Restore) (r : Restore) → found b x ≡ some r → x ≡ some r
  found-same true x r h = h
  found-same false x r h = cc

  -- A request to cancel or to delete a restore that succeeds leaves the restore stored, in a phase that
  -- is neither Pending nor Running, and as Deleted where it was to delete.
  pub cancel_restore-AsAsked :
      (event : String) (w : World)
      → (cancel_restore a event id w).0 ≡ success
      → StoredIn (AsAsked event) (cancel_restore a event id w).1
  unfolding cancel_restore
  cancel_restore-AsAsked event w h =
      elim (Bool-cases (str_eq event "cancel" || str_eq event "delete")) [
        | inl y ↦ rw y (
            found-StoredIn event (found a.reads (get w.restores id)) w
              (λ r e. found-same a.reads (get w.restores id) r e) (rw y at h))
        | inr n ↦ panicked_no (rw n at h)
      ]
