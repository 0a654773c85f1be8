-- ===== src/RestoreRun/Completed.antt =====
-- A restore is completed by its run only when the run has done all that it is to do, and its files
-- are removed only when it has failed.
use backup_server.Base.{
  ℕ, ◌≡◌, ◌≢◌, ◌∙◌, refl, sym, ap, String, eq_iff, Option, none, some, List, [], Dict, get, put,
  get-put_self, Result, ok, err, arith, Result-cases, inl, inr,
}
use backup_server.Base.Bytes.{Bytes}
use backup_server.BackupRun.App.{Stop, failed, crashed, waits}
use backup_server.BackupRun.Prepare.{Source}
use backup_server.RestoreRun.Report.{
  Restore, World, Output, Report, phase_of, new_restore, with_result,
}
use backup_server.RestoreRun.Own.{result-Holds}
use backup_server.RestoreRun.Prepare.{RestoreType, Params}
use backup_server.RestoreRun.Steps.{
  FileOp, AppEnd, remove_restore_files, rename_restore_directory, ready_for_restore_app,
}
use backup_server.RestoreRun.Whole.{
  Answers, Job, Run, check_restore_exists, is_app, of_error, checked, prepare_for_run, report,
  stop_with, stop, after_app, after_execute, execute_job, after_running, after_checks, run_found,
  run_restore,
}

-- The restore is not completed.
abbrev pub Open : String → Dict Restore → Type 0
Open id m = (t : Restore) → get m id ≡ some t → t.phase ≢ "Completed"

put-Open :
    (m : Dict Restore) (id : String) (r : Restore) → r.phase ≢ "Completed" → Open id (put m id r)
put-Open m id r h t e =
    let same : r ≡ t = cc (get-put_self m id r) in λ k. h (ap (λ x. x.phase) same ∙ k)

with_result-phase :
    (p : Report) (e : Option Bytes) (r : Restore) → (with_result p e r).phase ≡ phase_of e
with_result-phase p none r = refl
with_result-phase p (some text) r = refl

error-Open :
    (p : Report) (e : Bytes) (now : ℕ) (r : Restore)
    → p.error ≡ some e
    → (new_restore p now r).phase ≢ "Completed"
unfolding new_restore
error-Open p e now r h k =
    let failed_phase : phase_of p.error ≡ "Completed" = sym (with_result-phase p p.error r) ∙ k in
    let is_failed : phase_of p.error ≡ "Failed" = ap phase_of h in
    ground (arith, eq_iff "Failed" "Completed")

module _ (a : Answers) (j : Job) (fuel polls : ℕ) where
  report-Open :
      (p : Report) (e : Bytes) (files : List FileOp) (w : World)
      → p.error ≡ some e
      → Open j.restore w.restores
      → Open j.restore (report a j fuel polls p files w).world.restores
  report-Open p e files w is_error h =
      result-Holds j.restore p (Open j.restore)
        (λ m r now k. put-Open m j.restore (new_restore p now r) (error-Open p e now r is_error))
        a.attempt polls w h

  stop-Open :
      (s : Stop) (w : World)
      → Open j.restore w.restores
      → Open j.restore (stop a j fuel polls s w).world.restores
  stop-Open (failed e) w h = report-Open (of_error e) e [] w refl h
  stop-Open crashed w h = h
  stop-Open waits w h = h

  abbrev pub IsCompleted : Run → Type 0
  IsCompleted x =
      (t : Restore) × (get x.world.restores j.restore ≡ some t) × (t.phase ≡ "Completed")

  contradicts : {A : Type 0} (x : Run) → Open j.restore x.world.restores → IsCompleted x → A
  contradicts x h (t, e, done) = absurd (h t e done)

  -- The restore has been made with an output, and the wait for an app has ended without an error.
  abbrev pub Restored : Params → Type 0
  Restored p =
      (o : Output) × (status : Option Bytes) × (execute_job a j fuel polls p ≡ ok o)
      × (ready_for_restore_app (is_app j) a.starts_app a.waits_for_app ≡ some (none, status))

  after_app-succeeds :
      (o : Output) (files : List FileOp) (x : Option AppEnd) (w : World)
      → Open j.restore w.restores
      → IsCompleted (after_app a j fuel polls o files x w)
      → (status : Option Bytes) × (x ≡ some (none, status))
  after_app-succeeds o files none w h done =
      contradicts (after_app a j fuel polls o files none w) h done
  after_app-succeeds o files (some (none, status)) w h done = (status, refl)
  after_app-succeeds o files (some (some e, status)) w h done =
      contradicts (after_app a j fuel polls o files (some (some e, status)) w)
        (report-Open (record { output = some o; error = some e; app_status = status }) e files w
          refl h)
        done

  after_execute-succeeds :
      (p : Params) (x : Result Stop Output) (w : World)
      → x ≡ execute_job a j fuel polls p
      → Open j.restore w.restores
      → IsCompleted (after_execute a j fuel polls p x w)
      → Restored p
  after_execute-succeeds p (err (failed e)) w same h done =
      contradicts (after_execute a j fuel polls p (err (failed e)) w)
        (report-Open (of_error e) e (remove_restore_files (is_app j) p.path) w refl h) done
  after_execute-succeeds p (err crashed) w same h done =
      contradicts (stop_with a j fuel polls crashed w) h done
  after_execute-succeeds p (err waits) w same h done =
      contradicts (stop_with a j fuel polls waits w) h done
  after_execute-succeeds p (ok o) w same h done =
      let (status, e) =
        after_app-succeeds o (rename_restore_directory (is_app j) p.path)
          (ready_for_restore_app (is_app j) a.starts_app a.waits_for_app) w h done in
      (o, status, sym same, e)

  prepare-Open :
      (r : Restore) (w : World)
      → Open j.restore w.restores
      → Open j.restore (prepare_for_run a j r w).1.restores
  unfolding prepare_for_run
  prepare-Open r w h = elim (Result-cases a.runs) [
    | inr e ↦ rw (e.1) h
    | inl u ↦
        rw (u.1)
          (put-Open w.restores j.restore _ (λ c. ground (arith, eq_iff "Running" "Completed")))
  ]

  after_running-succeeds :
      (p : Params) (y : Result Bytes (Unit {0}) × World)
      → Open j.restore y.1.restores
      → IsCompleted (after_running a j fuel polls p y)
      → Restored p
  after_running-succeeds p (err e, w) h done =
      contradicts (stop a j fuel polls (failed e) w) (stop-Open (failed e) w h) done
  after_running-succeeds p (ok u, w) h done =
      after_execute-succeeds p (execute_job a j fuel polls p) w refl h done

  after_checks-succeeds :
      (r : Restore) (x : Result Stop Params) (w : World)
      → Open j.restore w.restores
      → IsCompleted (after_checks a j fuel polls r x w)
      → (p : Params) × (x ≡ ok p) × Restored p
  after_checks-succeeds r (err e) w h done =
      contradicts (stop a j fuel polls e w) (stop-Open e w h) done
  after_checks-succeeds r (ok p) w h done =
      (p, refl, after_running-succeeds p (prepare_for_run a j r w) (prepare-Open r w h) done)

  run_found-succeeds :
      (r : Restore) (x : Option (RestoreType × Source)) (w : World)
      → Open j.restore w.restores
      → IsCompleted (run_found a j fuel polls (some r) x w)
      → (t : RestoreType) × (s : Source) × (p : Params) × (x ≡ some (t, s))
        × (checked a j t s ≡ ok p)
        × Restored p
  run_found-succeeds r none w h done = contradicts (run_found a j fuel polls (some r) none w) h done
  run_found-succeeds r (some (t, s)) w h done =
      let (p, e, restored) = after_checks-succeeds r (checked a j t s) w h done in
      (t, s, p, refl, e, restored)

  -- A run completes its restore only when its type and its backup are there, all checks were passed,
  -- the restore has given an output and the wait for an app has ended without an error, whatever the
  -- world outside answers. The restore is taken not to be completed before.
  pub completed_needs_restore :
      (r : Restore) (w : World)
      → get w.restores j.restore ≡ some r
      → r.phase ≢ "Completed"
      → IsCompleted (run_restore a j fuel polls w)
      → (t : RestoreType) × (s : Source) × (p : Params) × (check_restore_exists j (some r)
          ≡ some (t, s))
        × (checked a j t s ≡ ok p)
        × Restored p
  unfolding run_restore
  completed_needs_restore r w there fresh done =
      let open_now : Open j.restore w.restores =
        λ t e c. (let same : r ≡ t = cc in fresh (ap (λ x. x.phase) same ∙ c)) in
      run_found-succeeds r (check_restore_exists j (some r)) w open_now (rw there at done)
