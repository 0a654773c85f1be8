-- ===== src/RestoreRun/Removed.antt =====
-- The files of a restore are removed only where it has failed.
use backup_server.Base.{
  ℕ, ◌≡◌, ◌∙◌, refl, sym, ap, Bool, true, false, Option, none, some, List, [], ◌∷◌, ◌++◌, get,
  Result, ok, err,
}
use backup_server.Base.Bytes.{Bytes}
use backup_server.BackupRun.App.{Stop, failed, crashed, waits}
use backup_server.BackupRun.Prepare.{Source}
use backup_server.RestoreRun.Report.{Restore, World, Output}
use backup_server.RestoreRun.Prepare.{RestoreType, Params}
use backup_server.RestoreRun.Steps.{
  FileOp, removes, renames, AppEnd, remove_restore_files, rename_restore_directory,
  ready_for_restore_app,
}
use backup_server.RestoreRun.Whole.{
  Answers, Job, is_app, checked, prepare_for_run, stop, after_app, after_execute, execute_job,
  after_running, after_checks, run_found, run_restore,
}

module _ (a : Answers) (j : Job) (fuel polls : ℕ) where
  renames-not : {A : Type 0} (p q r : Bytes) → renames p q ≡ removes r → A
  renames-not p q r h = cc

  removes-same : (p q : Bytes) → removes p ≡ removes q → q ≡ p
  removes-same p q h = cc

  -- What a run that removes `q` has come to: the restore of files has failed, and `q` is where it
  -- has written them.
  abbrev pub FailedAt : Bytes → Params → Type 0
  FailedAt q p =
      (q ≡ p.path)
      × (is_app j ≡ false)
      × ((e : Bytes) × (execute_job a j fuel polls p ≡ err (failed e)))

  -- The only thing that is done to files is to remove `q`.
  abbrev pub OnlyRemoves : Bytes → List FileOp → List FileOp → Type 0
  OnlyRemoves q before after = (before ≡ []) × (after ≡ [])

  none-removes :
      {A : Type 0} (q : Bytes) (l m : List FileOp)
      → ◌≡◌ {A = List FileOp} [] (l ++ removes q ∷ m)
      → A
  none-removes q [] m h = cc
  none-removes q (x ∷ l) m h = cc

  one-removes :
      (x : FileOp) (q : Bytes) (l m : List FileOp)
      → x ∷ [] ≡ l ++ removes q ∷ m
      → (x ≡ removes q) × OnlyRemoves q l m
  one-removes x q [] m h = (cc, (refl, cc))
  one-removes x q (y ∷ l) m h =
      none-removes q l m (ap (λ k. elim k [ [] ↦ [] | a ∷ rest ↦ rest ]) h)

  rename-removes :
      {A : Type 0} (b : Bool) (path q : Bytes) (l m : List FileOp)
      → rename_restore_directory b path ≡ l ++ removes q ∷ m
      → A
  unfolding rename_restore_directory
  rename-removes true path q l m h = none-removes q l m h
  rename-removes false path q l m h = renames-not _ _ q (one-removes _ q l m h).0

  remove-removes :
      (b : Bool) (path q : Bytes) (l m : List FileOp)
      → remove_restore_files b path ≡ l ++ removes q ∷ m
      → (q ≡ path) × (b ≡ false) × OnlyRemoves q l m
  unfolding remove_restore_files
  remove-removes true path q l m h = none-removes q l m h
  remove-removes false path q l m h =
      let (same, only) = one-removes (removes path) q l m h in
      (removes-same path q same, refl, only)

  after_app-files :
      (o : Output) (files : List FileOp) (x : Option AppEnd) (w : World)
      → (after_app a j fuel polls o files x w).files ≡ files
  after_app-files o files none w = refl
  after_app-files o files (some (e, status)) w = refl

  after_execute-removes :
      (p : Params) (x : Result Stop Output) (w : World) (q : Bytes) (l m : List FileOp)
      → x ≡ execute_job a j fuel polls p
      → (after_execute a j fuel polls p x w).files ≡ l ++ removes q ∷ m
      → FailedAt q p × OnlyRemoves q l m
  after_execute-removes p (err (failed e)) w q l m same h =
      let (at, files, only) = remove-removes (is_app j) p.path q l m h in
      ((at, files, (e, sym same)), only)
  after_execute-removes p (err crashed) w q l m same h = none-removes q l m h
  after_execute-removes p (err waits) w q l m same h = none-removes q l m h
  after_execute-removes p (ok o) w q l m same h = rename-removes (is_app j) p.path q l m (
      sym (
        after_app-files o (rename_restore_directory (is_app j) p.path)
          (ready_for_restore_app (is_app j) a.starts_app a.waits_for_app) w)
      ∙ h)

  stop-removes :
      {A : Type 0} (s : Stop) (w : World) (q : Bytes) (l m : List FileOp)
      → (stop a j fuel polls s w).files ≡ l ++ removes q ∷ m
      → A
  stop-removes (failed e) w q l m h = none-removes q l m h
  stop-removes crashed w q l m h = none-removes q l m h
  stop-removes waits w q l m h = none-removes q l m h

  after_running-removes :
      (p : Params) (y : Result Bytes (Unit {0}) × World) (q : Bytes) (l m : List FileOp)
      → (after_running a j fuel polls p y).files ≡ l ++ removes q ∷ m
      → FailedAt q p × OnlyRemoves q l m
  after_running-removes p (err e, w) q l m h = stop-removes (failed e) w q l m h
  after_running-removes p (ok u, w) q l m h =
      after_execute-removes p (execute_job a j fuel polls p) w q l m refl h

  after_checks-removes :
      (r : Restore) (x : Result Stop Params) (w : World) (q : Bytes) (l m : List FileOp)
      → (after_checks a j fuel polls r x w).files ≡ l ++ removes q ∷ m
      → (p : Params) × (x ≡ ok p) × FailedAt q p × OnlyRemoves q l m
  after_checks-removes r (err e) w q l m h = stop-removes e w q l m h
  after_checks-removes r (ok p) w q l m h =
      let (f, only) = after_running-removes p (prepare_for_run a j r w) q l m h in
      (p, refl, f, only)

  run_found-removes :
      (r : Option Restore) (x : Option (RestoreType × Source)) (w : World) (q : Bytes)
      (l m : List FileOp)
      → (run_found a j fuel polls r x w).files ≡ l ++ removes q ∷ m
      → (t : RestoreType) × (s : Source) × (p : Params) × (checked a j t s ≡ ok p)
        × FailedAt q p
        × OnlyRemoves q l m
  run_found-removes none x w q l m h = none-removes q l m h
  run_found-removes (some r) none w q l m h = none-removes q l m h
  run_found-removes (some r) (some (t, s)) w q l m h =
      let (p, e, f, only) = after_checks-removes r (checked a j t s) w q l m h in
      (t, s, p, e, f, only)

  -- Wherever among its operations on files a run removes files, a restore of files has passed all
  -- checks and then failed, what is removed is the directory that it was to write, and nothing
  -- else is done to files.
  pub removes_only_failed :
      (w : World) (q : Bytes) (l m : List FileOp)
      → (run_restore a j fuel polls w).files ≡ l ++ removes q ∷ m
      → (t : RestoreType) × (s : Source) × (p : Params) × (checked a j t s ≡ ok p)
        × FailedAt q p
        × OnlyRemoves q l m
  unfolding run_restore
  removes_only_failed w q l m h = run_found-removes (get w.restores j.restore) _ w q l m h
