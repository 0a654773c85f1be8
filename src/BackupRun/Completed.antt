-- ===== src/BackupRun/Completed.antt =====
-- A snapshot is completed by a run only when the run has done all that it is to do.
use backup_server.Base.{
  ℕ, ◌≡◌, ◌≢◌, ◌∙◌, refl, sym, ap, String, str_eq, eq_iff, ◌&&◌, Bool, true, false, Option, none,
  some, Dict, get, put, get-put_self, Result, ok, err, arith, Bool-cases, Option-cases,
  Result-cases, inl, inr, bind-ok, check-ok,
}
use backup_server.Base.Bytes.{Bytes, codes, contains}
use backup_server.Paths.{Roots}
use backup_server.BackupRun.Cloud.{Integration}
use backup_server.BackupRun.App.{Stop, failed, crashed, waits, AppBackup}
use backup_server.BackupRun.Space.{Summary}
use backup_server.BackupRun.Prepare.{Params}
use backup_server.BackupRun.Report.{
  Snapshot, World, Run, Report, phase_of, new_snapshot, with_result,
}
use backup_server.BackupRun.Own.{result-Holds}
use backup_server.BackupRun.Steps.{
  SnapshotKind, Answers, Job, Ready, checked, prepare_for_run, app_steps, of_error, execute,
}
use backup_server.BackupRun.Whole.{
  Finish, report, stop, not_found, has_key, read_object, executed, with_app, after_running,
  after_checks, run_snapshot, run_backup, early, late,
}

-- The snapshot of the run is not completed.
abbrev pub Open : String → Dict Snapshot → Type 0
Open id m = (t : Snapshot) → get m id ≡ some t → t.phase ≢ "Completed"

failed-ne-completed : (e : Bytes) → phase_of (some e) ≢ "Completed"
failed-ne-completed e = elim (Bool-cases (contains e (codes "canceled"))) [
  | inl y ↦ rw y (λ h. ground (arith, eq_iff "Canceled" "Completed"))
  | inr n ↦ rw n (λ h. ground (arith, eq_iff "Failed" "Completed"))
]

put-Open :
    (m : Dict Snapshot) (id : String) (s : Snapshot) → s.phase ≢ "Completed" → Open id (put m id s)
put-Open m id s h t e =
    let same : s ≡ t = cc (get-put_self m id s) in λ k. h (ap (λ x. x.phase) same ∙ k)

abbrev phase_in : Option Snapshot → String
phase_in none = ""
phase_in (some t) = t.phase

-- A new snapshot is in the phase of the report.
with_result-phase_in :
    (r : Run) (error : Option Bytes) (output : Option Summary) (s u : Snapshot)
    → with_result r error output s ≡ some u
    → u.phase ≡ phase_of error
with_result-phase_in r (some e) output s u h = sym (ap phase_in h)
with_result-phase_in r none (some o) s u h = sym (ap phase_in h)
with_result-phase_in r none none s u h = cc

new_snapshot-phase :
    (r : Run) (p : Report) (now : ℕ) (s t : Snapshot)
    → new_snapshot r p now s ≡ some t
    → t.phase ≡ phase_of p.error
unfolding new_snapshot
new_snapshot-phase r p now s t = elim (Option-cases (with_result r p.error p.output s)) [
  | inl e ↦ rw (e, new_snapshot) (λ h. cc)
  | inr u ↦
      rw (u.1, new_snapshot)
        (λ h. sym (ap phase_in h) ∙ with_result-phase_in r p.error p.output s u.0 u.1)
]

module _ (a : Answers) (j : Job) (fuel polls : ℕ) where
  report-Open :
      (r : Run) (p : Report) (e : Bytes) (w : World)
      → p.error ≡ some e
      → r.snapshot ≡ j.snapshot
      → Open j.snapshot w.snapshots
      → Open j.snapshot (report a j fuel polls r p w).1.snapshots
  report-Open r p e w is_error same h =
      result-Holds a.to_json r p (Open j.snapshot)
        (λ m s t now f k. rw same (
          put-Open m j.snapshot t (λ c.
            failed-ne-completed e
              (ap phase_of (sym is_error) ∙ sym (new_snapshot-phase r p now s t f) ∙ c))))
        a.attempt polls w h

  stop-Open :
      (s : Snapshot) (x : Stop) (w : World)
      → Open j.snapshot w.snapshots
      → Open j.snapshot (stop a j fuel polls s x w).1.snapshots
  stop-Open s (failed e) w h = report-Open (early a j s) (of_error e) e w refl refl h
  stop-Open s crashed w h = h
  stop-Open s waits w h = h

  -- The stored snapshot of the run is completed.
  abbrev pub IsCompleted : Finish × World → Type 0
  IsCompleted x = (t : Snapshot) × (get x.1.snapshots j.snapshot ≡ some t) × (t.phase ≡ "Completed")

  -- All steps of the run have been made, and the upload has succeeded.
  abbrev pub Uploaded : Snapshot → Type 0
  Uploaded s =
      (x : SnapshotKind × Params × Roots × ℕ) × (app : Option AppBackup) × (p : Report)
      × (i : Integration) × (checked a j s ≡ ok x)
      × (a.runs ≡ ok tt)
      × (app_steps a j x.2 ≡ ok app)
      × (execute a j fuel (record { kind = x.0; params = x.1; size = x.3; app = app }) ≡ ok (p, i))
      × (p.error ≡ none)

  contradicts :
      {A : Type 0} (x : Finish × World) → Open j.snapshot x.1.snapshots → IsCompleted x → A
  contradicts x h (t, e, done) = absurd (h t e done)

  executed-succeeds :
      (s : Snapshot) (r : Ready) (x : Result Stop (Report × Integration)) (w : World)
      → Open j.snapshot w.snapshots
      → IsCompleted (executed a j fuel polls s r x w)
      → (p : Report) × (i : Integration) × (x ≡ ok (p, i)) × (p.error ≡ none)
  executed-succeeds s r (err e) w h done =
      contradicts (stop a j fuel polls s e w) (stop-Open s e w h) done
  executed-succeeds s r (ok (p, i)) w h done = elim (Option-cases p.error) [
    | inl none_there ↦ (p, i, refl, none_there)
    | inr e ↦
        contradicts (report a j fuel polls (late a j s r i) p w)
          (report-Open (late a j s r i) p e.0 w e.1 refl h) done
  ]

  with_app-succeeds :
      (s : Snapshot) (x : SnapshotKind × Params × Roots × ℕ) (y : Result Stop (Option AppBackup))
      (w : World)
      → Open j.snapshot w.snapshots
      → IsCompleted (with_app a j fuel polls s x y w)
      → (app : Option AppBackup) × (p : Report) × (i : Integration) × (y ≡ ok app)
        × (execute a j fuel (record { kind = x.0; params = x.1; size = x.3; app = app })
            ≡ ok (p, i))
        × (p.error ≡ none)
  with_app-succeeds s x (err e) w h done =
      contradicts (stop a j fuel polls s e w) (stop-Open s e w h) done
  with_app-succeeds s (kind, params, roots, size) (ok app) w h done =
      let r : Ready = record { kind = kind; params = params; size = size; app = app } in
      let (p, i, e, f) = executed-succeeds s r (execute a j fuel r) w h done in
      (app, p, i, refl, e, f)

  prepare-Open :
      (s : Snapshot) (w : World)
      → Open j.snapshot w.snapshots
      → Open j.snapshot (prepare_for_run a j s w).1.snapshots
  unfolding prepare_for_run
  prepare-Open s w h = elim (Result-cases a.runs) [
    | inr e ↦ rw (e.1) h
    | inl u ↦
        rw (u.1)
          (put-Open w.snapshots j.snapshot _ (λ c. ground (arith, eq_iff "Running" "Completed")))
  ]

  prepare-runs : (s : Snapshot) (w : World) → (prepare_for_run a j s w).0 ≡ a.runs
  unfolding prepare_for_run
  prepare-runs s w = elim (Result-cases a.runs) [ inr e ↦ rw (e.1) refl | inl u ↦ rw (u.1) refl ]

  after_running-succeeds :
      (s : Snapshot) (x : SnapshotKind × Params × Roots × ℕ) (y : Result Bytes (Unit {0}) × World)
      → Open j.snapshot y.1.snapshots
      → IsCompleted (after_running a j fuel polls s x y)
      → (y.0 ≡ ok tt) × IsCompleted (with_app a j fuel polls s x (app_steps a j x.2) y.1)
  after_running-succeeds s x (err e, w) h done =
      contradicts (stop a j fuel polls s (failed e) w) (stop-Open s (failed e) w h) done
  after_running-succeeds s x (ok u, w) h done = (refl, done)

  after_checks-succeeds :
      (s : Snapshot) (x : Result Bytes (SnapshotKind × Params × Roots × ℕ)) (w : World)
      → x ≡ checked a j s
      → Open j.snapshot w.snapshots
      → IsCompleted (after_checks a j fuel polls s x w)
      → Uploaded s
  after_checks-succeeds s (err e) w same h done =
      contradicts (stop a j fuel polls s (failed e) w) (stop-Open s (failed e) w h) done
  after_checks-succeeds s (ok x) w same h done =
      let v = prepare_for_run a j s w in
      let (runs, later) = after_running-succeeds s x v (prepare-Open s w h) done in
      let (app, p, i, e, f, g) =
        with_app-succeeds s x (app_steps a j x.2) v.1 (prepare-Open s w h) later in
      (x, app, p, i, sym same, sym (prepare-runs s w) ∙ runs, e, f, g)

  checked-pending :
      (s : Snapshot) (x : SnapshotKind × Params × Roots × ℕ)
      → checked a j s ≡ ok x
      → str_eq s.phase "Pending" ≡ true
  unfolding checked
  checked-pending s x h =
      let (roots, e, f) = bind-ok a.pvc _ x h in (check-ok (str_eq s.phase "Pending") _ _ x f).0

  run_snapshot-succeeds :
      (s : Snapshot) (has_backup : Bool) (w : World)
      → Open j.snapshot w.snapshots
      → IsCompleted (run_snapshot a j fuel polls (some s) has_backup w)
      → Uploaded s
  run_snapshot-succeeds s true w h done = after_checks-succeeds s (checked a j s) w refl h done
  run_snapshot-succeeds s false w h done = contradicts (not_found, w) h done

  read-succeeds :
      (s : Snapshot) (reads has_backup : Bool) (w : World)
      → Open j.snapshot w.snapshots
      → IsCompleted (run_snapshot a j fuel polls (read_object reads (some s)) has_backup w)
      → Uploaded s
  read-succeeds s true has_backup w h done = run_snapshot-succeeds s has_backup w h done
  read-succeeds s false has_backup w h done = contradicts (not_found, w) h done

  -- A run completes its snapshot only when it was pending, all checks have been passed, the phase
  -- Running was stored, the steps of an app were made, and the upload has succeeded; whatever the
  -- world outside answers. The snapshot is taken not to be completed before.
  pub completed_needs_upload :
      (s : Snapshot) (w : World)
      → get w.snapshots j.snapshot ≡ some s
      → s.phase ≢ "Completed"
      → IsCompleted (run_backup a j fuel polls w)
      → (s.phase ≡ "Pending") × Uploaded s
  unfolding run_backup
  completed_needs_upload s w there fresh done =
      let open_now : Open j.snapshot w.snapshots =
        λ t e c. (let same : s ≡ t = cc in fresh (ap (λ x. x.phase) same ∙ c)) in
      let passed =
        read-succeeds s a.gets_snapshot (a.gets_backup && has_key (get w.backups j.backup)) w
          open_now (rw there at done) in
      ((eq_iff s.phase "Pending").0 (checked-pending s passed.0 passed.4), passed)
