-- ===== src/RestoreRun/Ends.antt =====
-- How a run of a restore ends, and what becomes of its files.
use backup_server.Base.{
  ℕ, suc, ◌≡◌, ◌⊎◌, ◌∙◌, refl, sym, ap, subst, String, true, false, Option, none, some, List, [],
  ◌∷◌, ◌++◌, get, put, get-put_self, Result, ok, err, Option-cases, Result-cases, inl, inr, All,
}
use backup_server.Base.Bytes.{Bytes}
use backup_server.BackupRun.App.{Stop, failed, crashed, waits}
use backup_server.BackupRun.Prepare.{Source}
use backup_server.RestoreRun.Report.{
  Restore, World, Output, Report, read, Attempt, finished, phase_of, new_restore, message_of,
  update_restore_result, poll, try_result,
}
use backup_server.RestoreRun.Prepare.{RestoreType, Params}
use backup_server.RestoreRun.Steps.{
  FileOp, AppEnd, Wait, tick, ended, still_runs, other, wait_for_app, remove_restore_files,
  rename_restore_directory, ready_for_restore_app,
}
use backup_server.RestoreRun.Whole.{
  running, Answers, Job, not_begun, stopped, told, Run, check_restore_exists, is_app, of_error,
  checked, prepare_for_run, report, stop, after_app, after_execute, execute_job, after_running,
  after_checks, run_found, run_restore,
}

-- The attempt reads the restore twice and is not refused.
abbrev pub Writes : Attempt → Type 0
Writes a = (a.done ≡ false) × (a.reads ≡ read) × (a.again ≡ true) × (a.writes ≡ true)

first_attempt_stores :
    (id : String) (p : Report) (answer : ℕ → Attempt) (n : ℕ) (r : Restore) (w : World)
    → get w.restores id ≡ some r
    → Writes (answer 0)
    → update_restore_result id p answer (suc n) w ≡ (
      finished,
      record {
        restores = put w.restores id (new_restore p (answer 0).now r);
        sent = w.sent ++ message_of p r ∷ [];
      },
    )
unfolding update_restore_result poll try_result
first_attempt_stores id p answer n r w there (go, x, y, z) = rw (go, x, there, y, z) refl

new_restore-phase :
    (p : Report) (now : ℕ) (r : Restore)
    → ((new_restore p now r).phase ≡ phase_of p.error) × ((new_restore p now r).end_at ≡ some now)
unfolding new_restore
new_restore-phase p now r = elim (Option-cases p.error) [
  | inl e ↦ rw e (refl, refl)
  | inr e ↦ rw (e.1) (refl, refl)
]

phase_of-cases : (e : Option Bytes) → (phase_of e ≡ "Completed") ⊎ (phase_of e ≡ "Failed")
phase_of-cases none = inl refl
phase_of-cases (some text) = inr refl

-- The run is not begun or has stopped, or its restore is stored as completed or failed, with the
-- time of its end.
abbrev pub Settled : Answers → Job → Run → Type 0
Settled a j x =
    ((x.finish ≡ not_begun) ⊎ ((x.finish ≡ stopped crashed) ⊎ (x.finish ≡ stopped waits)))
    ⊎ ((x.finish ≡ told finished)
        × ((t : Restore) × (get x.world.restores j.restore ≡ some t)
            × ((t.phase ≡ "Completed") ⊎ (t.phase ≡ "Failed"))
            × (t.end_at ≡ some (a.attempt 0).now)))

module _ (a : Answers) (j : Job) (fuel n : ℕ) (writes : Writes (a.attempt 0)) where
  report-Settled :
      (p : Report) (files : List FileOp) (r : Restore) (w : World)
      → get w.restores j.restore ≡ some r
      → Settled a j (report a j fuel (suc n) p files w)
  report-Settled p files r w there =
      let done = first_attempt_stores j.restore p a.attempt n r w there writes in
      let (phase, at_end) = new_restore-phase p (a.attempt 0).now r in
      inr (
        ap (λ x. told x.0) done,
        (
          new_restore p (a.attempt 0).now r,
          ap (λ x. get x.1.restores j.restore) done ∙ get-put_self w.restores j.restore _,
          subst (λ x. (x ≡ "Completed") ⊎ (x ≡ "Failed")) (sym phase) (phase_of-cases p.error),
          at_end,
        ),
      )

  stop-Settled :
      (s : Stop) (r : Restore) (w : World)
      → get w.restores j.restore ≡ some r
      → Settled a j (stop a j fuel (suc n) s w)
  stop-Settled (failed e) r w there = report-Settled (of_error e) [] r w there
  stop-Settled crashed r w there = inl (inr (inl refl))
  stop-Settled waits r w there = inl (inr (inr refl))

  after_app-Settled :
      (o : Output) (files : List FileOp) (x : Option AppEnd) (r : Restore) (w : World)
      → get w.restores j.restore ≡ some r
      → Settled a j (after_app a j fuel (suc n) o files x w)
  after_app-Settled o files none r w there = inl (inr (inr refl))
  after_app-Settled o files (some (e, status)) r w there =
      report-Settled (record { output = some o; error = e; app_status = status }) files r w there

  after_execute-Settled :
      (p : Params) (x : Result Stop Output) (r : Restore) (w : World)
      → get w.restores j.restore ≡ some r
      → Settled a j (after_execute a j fuel (suc n) p x w)
  after_execute-Settled p (err (failed e)) r w there =
      report-Settled (of_error e) (remove_restore_files (is_app j) p.path) r w there
  after_execute-Settled p (err crashed) r w there = inl (inr (inl refl))
  after_execute-Settled p (err waits) r w there = inl (inr (inr refl))
  after_execute-Settled p (ok o) r w there =
      after_app-Settled o (rename_restore_directory (is_app j) p.path)
        (ready_for_restore_app (is_app j) a.starts_app a.waits_for_app) r w there

  prepare_stores :
      (r : Restore) (w : World)
      → get w.restores j.restore ≡ some r
      → (u : Restore) × (get (prepare_for_run a j r w).1.restores j.restore ≡ some u)
  unfolding prepare_for_run
  prepare_stores r w there = elim (Result-cases a.runs) [
    | inr e ↦ rw (e.1) (r, there)
    | inl u ↦ rw (u.1) (_, get-put_self w.restores j.restore _)
  ]

  after_running-Settled :
      (p : Params) (y : Result Bytes (Unit {0}) × World) (r : Restore)
      → get y.1.restores j.restore ≡ some r
      → Settled a j (after_running a j fuel (suc n) p y)
  after_running-Settled p (err e, w) r there = stop-Settled (failed e) r w there
  after_running-Settled p (ok u, w) r there =
      after_execute-Settled p (execute_job a j fuel (suc n) p) r w there

  after_checks-Settled :
      (r : Restore) (x : Result Stop Params) (w : World)
      → get w.restores j.restore ≡ some r
      → Settled a j (after_checks a j fuel (suc n) r x w)
  after_checks-Settled r (err e) w there = stop-Settled e r w there
  after_checks-Settled r (ok p) w there =
      let (u, now_there) = prepare_stores r w there in
      after_running-Settled p (prepare_for_run a j r w) u now_there

  run_found-Settled :
      (r : Restore) (x : Option (RestoreType × Source)) (w : World)
      → get w.restores j.restore ≡ some r
      → Settled a j (run_found a j fuel (suc n) (some r) x w)
  run_found-Settled r none w there = inl (inl refl)
  run_found-Settled r (some (t, s)) w there = after_checks-Settled r (checked a j t s) w there

  -- A run whose restore is stored, and whose first attempt to store its result reads it and is not
  -- refused, leaves it completed or failed with the time of its end, unless the run is not begun, it
  -- stops at a nil pointer, still waits for its app, or has made all the rounds of a restore from
  -- the space that are looked at.
  pub restore_settles :
      (r : Restore) (w : World)
      → get w.restores j.restore ≡ some r
      → Settled a j (run_restore a j fuel (suc n) w)
  unfolding run_restore
  restore_settles r w there =
      rw there (run_found-Settled r (check_restore_exists j (some r)) w there)

-- What a run waits through: an app that still runs, or gives another status.
abbrev pub IsIdle : Wait → Type 0
IsIdle x = (x ≡ tick still_runs) ⊎ (x ≡ tick other)

waited : (idle rest : List Wait) → All IsIdle idle → wait_for_app (idle ++ rest) ≡ wait_for_app rest
unfolding wait_for_app
waited [] rest h = refl
waited (x ∷ idle) rest (inl e, h) = rw e (waited idle rest h)
waited (x ∷ idle) rest (inr e, h) = rw e (waited idle rest h)

module _ (a : Answers) (j : Job) (fuel n : ℕ) (writes : Writes (a.attempt 0)) where
  abbrev now_running : Restore → World → World
  now_running r w = record w {
    restores = put w.restores j.restore (running a.now r);
    sent = w.sent ++ record { status = "Running"; progress = 0; text = [] } ∷ [];
  }

  prepared :
      (r : Restore) (w : World)
      → a.runs ≡ ok tt
      → prepare_for_run a j r w ≡ (ok tt, now_running r w)
  unfolding prepare_for_run
  prepared r w runs = rw runs refl

  ready_without :
      (idle rest : List Wait)
      → is_app j ≡ true
      → a.starts_app ≡ ok tt
      → a.waits_for_app ≡ idle ++ ended ∷ rest
      → All IsIdle idle
      → ready_for_restore_app (is_app j) a.starts_app a.waits_for_app ≡ some (none, none)
  unfolding ready_for_restore_app
  ready_without idle rest app starts waits_so h =
      rw (app, starts, waits_so, waited idle (ended ∷ rest) h) (unfold wait_for_app in refl)

  -- A restore of an app whose context ends while the app still runs, fifteen seconds after the
  -- start at the latest, is stored as completed, when all before the app has succeeded and the
  -- first attempt to store the result is not refused.
  pub unfinished_app_completes :
      (r : Restore) (w : World) (t : RestoreType) (s : Source) (p : Params) (o : Output)
      (idle rest : List Wait)
      → get w.restores j.restore ≡ some r
      → check_restore_exists j (some r) ≡ some (t, s)
      → checked a j t s ≡ ok p
      → a.runs ≡ ok tt
      → execute_job a j fuel (suc n) p ≡ ok o
      → is_app j ≡ true
      → a.starts_app ≡ ok tt
      → a.waits_for_app ≡ idle ++ ended ∷ rest
      → All IsIdle idle
      → (u : Restore) × (get (run_restore a j fuel (suc n) w).world.restores j.restore ≡ some u)
        × (u.phase ≡ "Completed")
  unfolding run_restore
  unfinished_app_completes r w t s p o idle rest there exists passes runs made app starts waits_so
        h =
      let p_end : Report = record { output = some o; error = none; app_status = none } in
      let ready = ready_without idle rest app starts waits_so h in
      let done =
        first_attempt_stores j.restore p_end a.attempt n (running a.now r) (now_running r w)
          (get-put_self w.restores j.restore _) writes in
      rw (there, exists, passes, prepared r w runs, made, ready)
        (
          new_restore p_end (a.attempt 0).now (running a.now r),
          ap (λ x. get x.1.restores j.restore) done
              ∙ get-put_self (now_running r w).restores j.restore _,
          (new_restore-phase p_end (a.attempt 0).now (running a.now r)).0,
        )
