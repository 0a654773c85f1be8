-- ===== src/BackupRun/Ends.antt =====
-- Every run of a backup comes to an end that is stored, or stops at a nil pointer.
use backup_server.Base.{
  ℕ, suc, ◌≡◌, ◌⊎◌, ◌∙◌, refl, sym, ap, subst, String, true, Option, none, some, get, put,
  get-put_self, Result, ok, err, arith, Bool-cases, Result-cases, inl, inr,
}
use native.Mathlib.Nat.{zero-add}
use backup_server.Base.Bytes.{Bytes, codes, contains}
use backup_server.Paths.{Roots}
use backup_server.BackupRun.Cloud.{Integration}
use backup_server.BackupRun.App.{Stop, failed, crashed, waits, AppBackup}
use backup_server.BackupRun.Prepare.{Params}
use backup_server.BackupRun.Report.{Snapshot, Backup, World, Run, Report, finished, phase_of}
use backup_server.BackupRun.Storing.{update_backup_result}
use backup_server.BackupRun.Reported.{IsReport, Reads, result_stored}
use backup_server.BackupRun.Steps.{
  SnapshotKind, Answers, Job, Ready, checked, prepare_for_run, app_steps, of_error, execute,
}
use backup_server.BackupRun.Whole.{
  Finish, stopped, told, report, stop, executed, with_app, after_running, after_checks, run_backup,
  early, late,
}
use backup_server.BackupRun.Settled.{of_error-IsReport, execute-IsReport}

abbrev pub IsFinal : String → Type 0
IsFinal phase = (phase ≡ "Completed") ⊎ ((phase ≡ "Failed") ⊎ (phase ≡ "Canceled"))

phase_of-IsFinal : (e : Option Bytes) → IsFinal (phase_of e)
phase_of-IsFinal none = inl refl
phase_of-IsFinal (some e) = elim (Bool-cases (contains e (codes "canceled"))) [
  | inl y ↦ rw y (inr (inr refl))
  | inr n ↦ rw n (inr (inl refl))
]

-- The run has stopped, or its snapshot is stored in a final phase, with the time of its end.
abbrev pub Settled : Answers → Job → Finish × World → Type 0
Settled a j x =
    ((x.0 ≡ stopped crashed) ⊎ (x.0 ≡ stopped waits))
    ⊎ ((x.0 ≡ told finished)
        × ((t : Snapshot) × (get x.1.snapshots j.snapshot ≡ some t)
            × IsFinal t.phase
            × (t.end_at ≡ some (a.attempt 0).now)))

module _ (a : Answers) (j : Job) (fuel n : ℕ) (b : Backup) (reads : Reads (a.attempt 0))
    (writes : (a.attempt 0).writes_snapshot ≡ true) where
  -- Both objects are stored.
  abbrev pub Stored : Snapshot → World → Type 0
  Stored s w = (get w.backups j.backup ≡ some b) × (get w.snapshots j.snapshot ≡ some s)

  report-Settled :
      (r : Run) (p : Report) (s : Snapshot) (w : World)
      → r.backup ≡ j.backup
      → r.snapshot ≡ j.snapshot
      → Stored s w
      → IsReport p
      → Settled a j (report a j fuel (suc n) r p w)
  report-Settled r p s w same same' there sound =
      let (t, e, f, g, h) =
        result_stored a.to_json r p a.attempt w b s (rw same there.0) (rw same' there.1) 0 n sound
          (λ i lt. absurd (omega arith)) reads writes in
      let stored_now : (update_backup_result a.to_json r p a.attempt (suc n) w).1.snapshots
          ≡ put w.snapshots r.snapshot t =
        rw zero-add at f in
      inr (
        ap told (rw zero-add at e),
        (
          t,
          ap (λ m. get m j.snapshot) stored_now
              ∙ ap (λ k. get (put w.snapshots k t) j.snapshot) same'
              ∙ get-put_self w.snapshots j.snapshot t,
          subst IsFinal (sym h.0) (phase_of-IsFinal p.error),
          h.2,
        ),
      )

  stop-Settled :
      (s u : Snapshot) (x : Stop) (w : World)
      → Stored u w
      → Settled a j (stop a j fuel (suc n) s x w)
  stop-Settled s u (failed e) w there =
      report-Settled (early a j s) (of_error e) u w refl refl there (of_error-IsReport e)
  stop-Settled s u crashed w there = inl (inl refl)
  stop-Settled s u waits w there = inl (inr refl)

  executed-Settled :
      (s u : Snapshot) (r : Ready) (x : Result Stop (Report × Integration)) (w : World)
      → x ≡ execute a j fuel r
      → Stored u w
      → Settled a j (executed a j fuel (suc n) s r x w)
  executed-Settled s u r (err e) w same there = stop-Settled s u e w there
  executed-Settled s u r (ok (p, i)) w same there =
      report-Settled (late a j s r i) p u w refl refl there
        (execute-IsReport a j fuel r p i (sym same))

  with_app-Settled :
      (s u : Snapshot) (x : SnapshotKind × Params × Roots × ℕ) (y : Result Stop (Option AppBackup))
      (w : World)
      → Stored u w
      → Settled a j (with_app a j fuel (suc n) s x y w)
  with_app-Settled s u x (err e) w there = stop-Settled s u e w there
  with_app-Settled s u (kind, params, roots, size) (ok app) w there =
      let r : Ready = record { kind = kind; params = params; size = size; app = app } in
      executed-Settled s u r (execute a j fuel r) w refl there

  -- The snapshot that is stored after the phase Running is set, or is not.
  prepare-Stored :
      (s : Snapshot) (w : World)
      → Stored s w
      → (u : Snapshot) × Stored u (prepare_for_run a j s w).1
  unfolding prepare_for_run
  prepare-Stored s w there = elim (Result-cases a.runs) [
    | inr e ↦ rw (e.1) (s, there)
    | inl u ↦ rw (u.1) (_, (there.0, get-put_self w.snapshots j.snapshot _))
  ]

  after_running-Settled :
      (s u : Snapshot) (x : SnapshotKind × Params × Roots × ℕ) (y : Result Bytes (Unit {0}) × World)
      → Stored u y.1
      → Settled a j (after_running a j fuel (suc n) s x y)
  after_running-Settled s u x (err e, w) there = stop-Settled s u (failed e) w there
  after_running-Settled s u x (ok k, w) there = with_app-Settled s u x (app_steps a j x.2) w there

  after_checks-Settled :
      (s : Snapshot) (x : Result Bytes (SnapshotKind × Params × Roots × ℕ)) (w : World)
      → Stored s w
      → Settled a j (after_checks a j fuel (suc n) s x w)
  after_checks-Settled s (err e) w there = stop-Settled s s (failed e) w there
  after_checks-Settled s (ok x) w there =
      let (u, now_there) = prepare-Stored s w there in
      after_running-Settled s u x (prepare_for_run a j s w) now_there

  -- A run whose snapshot and backup are stored and read when it begins, and whose first attempt to store its result reads
  -- both and is not refused, leaves the snapshot in a final phase with the time of its end, unless
  -- it stops at a nil pointer, still waits for its app, or has made all the rounds of a backup to
  -- the space that are looked at.
  pub run_settles :
      (s : Snapshot) (w : World)
      → Stored s w
      → a.gets_snapshot ≡ true
      → a.gets_backup ≡ true
      → Settled a j (run_backup a j fuel (suc n) w)
  unfolding run_backup
  run_settles s w there first second =
      rw (first, second, there.1, there.0) (after_checks-Settled s (checked a j s) w there)
