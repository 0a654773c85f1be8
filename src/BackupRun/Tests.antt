-- ===== src/BackupRun/Tests.antt =====
-- Concrete runs of a backup.
use backup_server.Base.{
  ℕ, zero, suc, ◌<◌, ◌≡◌, refl, String, eq_iff, false, none, some, List, [], ◌∷◌, ◌++◌, get, put,
  ok, arith, inl,
}
use backup_server.Base.Bytes.{Bytes, codes, has_prefix, trim_prefix, split, join}
use backup_server.Paths.{real_path}
use backup_server.BackupRun.Cloud.{none_chosen, get_integration_cloud}
use backup_server.BackupRun.Prepare.{Params}
use backup_server.BackupRun.Report.{
  Snapshot, World, Run, Report, Attempt, unreachable, finished, message_of,
}
use backup_server.BackupRun.Storing.{update_backup_result}
use backup_server.BackupRun.Reported.{Ends, IsBlocked, result_stored}
use backup_server.BackupRun.Steps.{Answers, Job, fully, unchanged, app_steps, checked}
use backup_server.BackupRun.Whole.{run_backup}
use backup_server.BackupRun.Completed.{IsCompleted, Uploaded, completed_needs_upload}
use backup_server.BackupRun.Ends.{Settled, run_settles}
use backup_server.BackupRun.Fixture.{
  waiting_snapshot, some_backup, world, roots, good_attempt, answers, source, job,
}

abbrev phases : World → List (String × String)
phases w = elim (get w.snapshots "s1") [ none ↦ [] | some s ↦ (s.phase, s.restic_phase) ∷ [] ]

run_completes : phases (run_backup answers job 1 1 world).1 ≡ ("Completed", "Completed") ∷ []
unfolding run_backup update_backup_result split join has_prefix trim_prefix get put
run_completes = refl

run_is_done : IsCompleted answers job 1 1 (run_backup answers job 1 1 world)
unfolding run_backup update_backup_result split join has_prefix trim_prefix get put
run_is_done = (_, refl, refl)

is_stored : get world.snapshots "s1" ≡ some waiting_snapshot
unfolding get
is_stored = refl

backup_is_stored : get world.backups "b1" ≡ some some_backup
unfolding get
backup_is_stored = refl

completed_needs_upload_example :
    (waiting_snapshot.phase ≡ "Pending") × Uploaded answers job 1 1 waiting_snapshot
completed_needs_upload_example =
    completed_needs_upload answers job 1 1 waiting_snapshot world is_stored
      (λ h. ground (arith, eq_iff "Pending" "Completed")) run_is_done

run_settles_example : Settled answers job (run_backup answers job 1 1 world)
run_settles_example =
    run_settles answers job 1 0 some_backup (refl, refl, refl) refl waiting_snapshot world
      (backup_is_stored, is_stored) refl refl

-- A run that has failed, whose first attempt does not reach the API server.
abbrev failing : Report
failing = record { output = none; storage = none; total_size = 0; error = some (codes "disk full") }

abbrev plain_run : Run
plain_run = record {
  backup = "b1";
  snapshot = "s1";
  snapshot_type = some 0;
  location = record { kind = "awss3"; name = codes "k1"; endpoint = codes "e1"; path = [] };
  integration = record { changed = false; name = []; endpoint = [] };
  app_status = none;
}

abbrev cut_off : Attempt
cut_off = record good_attempt { reads_backup = unreachable }

abbrev first_cut_off : Attempt → ℕ → Attempt
first_cut_off a zero = cut_off
first_cut_off a (suc i) = a

abbrev json_of : Bytes → Bytes → Bytes
json_of n e = n ++ e

first_is_cut_off : (a : Attempt) (i : ℕ) → i < 1 → IsBlocked (first_cut_off a i)
first_is_cut_off a zero lt = (refl, inl refl)
first_is_cut_off a (suc i) lt = absurd (omega arith)

result_stored_example :
    let (verdict, v) =
      update_backup_result json_of plain_run failing (first_cut_off good_attempt) 6 world in
    (t : Snapshot) × (verdict ≡ finished)
    × (v.snapshots ≡ put world.snapshots "s1" t)
    × (v.sent ≡ world.sent ++ message_of failing ∷ [])
    × Ends failing 5000 t
result_stored_example =
    result_stored json_of plain_run failing (first_cut_off good_attempt) world some_backup
      waiting_snapshot backup_is_stored is_stored 1 4 (inl (λ h. cc))
      (first_is_cut_off good_attempt) (refl, refl, refl) refl

abbrev refusing : Attempt
refusing = record good_attempt { writes_snapshot = false }

-- The run of an app, whose context ends while it waits.
abbrev app_job : Job
app_job = record job { source = record source { kind = "app" } }

abbrev app_params : Params
app_params = record {
  password = codes "pw";
  path = [];
  source_path = [];
  location = record { kind = "filesystem"; name = []; endpoint = []; path = codes "/user/Home/B" };
  location_in_file_system = codes "/Files/Home/B";
  files_prefix = [];
}

app_passes : checked answers app_job waiting_snapshot ≡ ok (fully, app_params, roots, 0)
unfolding checked split join has_prefix trim_prefix real_path
app_passes = refl

-- A run to S3, where the account gives no token.
abbrev s3_job : Job
s3_job = record job {
  source = record source {
    locations =
        (
          "awss3",
          some (record { name = some (codes "k9"); path = none; endpoint = some (codes "e9") }),
        )
        ∷ [];
  };
}

abbrev s3_params : Params
s3_params = record {
  password = codes "pw";
  path = codes "/user/Home/Pictures";
  source_path = codes "/Files/Home/Pictures";
  location = record { kind = "awss3"; name = codes "k9"; endpoint = codes "e9"; path = [] };
  location_in_file_system = [];
  files_prefix = codes "/user/Home/Pictures" ∷ [];
}

abbrev no_accounts : Answers
no_accounts = record answers { accounts = none }

s3_passes : checked no_accounts s3_job waiting_snapshot ≡ ok (fully, s3_params, roots, 0)
unfolding checked split join has_prefix trim_prefix real_path
s3_passes = refl

s3_steps : app_steps no_accounts s3_job roots ≡ ok none
unfolding app_steps
s3_steps = refl

no_choice :
    get_integration_cloud no_accounts.accounts no_accounts.token_of s3_params.location unchanged
    ≡ none_chosen
unfolding get_integration_cloud
no_choice = refl
