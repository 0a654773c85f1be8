-- ===== src/RestoreRun/Tests.antt =====
-- Concrete runs of a restore.
use backup_server.Base.{
  ◌≡◌, refl, eq_iff, true, false, none, some, List, [], ◌∷◌, get, put, ok, err, arith, inl,
}
use backup_server.Base.Bytes.{codes, has_prefix, trim_prefix, split, join, strip_prefix}
use backup_server.Base.Int.{pos}
use backup_server.CronText.Numbers.{itoa, show}
use backup_server.Paths.{real_path, trim_path_prefix, path_join}
use backup_server.BackupRun.Prepare.{Source}
use backup_server.RestoreRun.Report.{Restore, World, Output, read, update_restore_result}
use backup_server.RestoreRun.Prepare.{RestoreType, Params}
use backup_server.RestoreRun.Steps.{
  downloaded, download_failed, tick, ended, still_runs, FileOp, removes, renames,
  rename_restore_directory, remove_restore_files, ready_for_restore_app,
}
use backup_server.RestoreRun.Whole.{
  Answers, Job, check_restore_exists, checked, execute_job, run_restore,
}
use backup_server.RestoreRun.Completed.{IsCompleted, Restored, completed_needs_restore}
use backup_server.RestoreRun.Ends.{Settled, restore_settles, unfinished_app_completes}
use backup_server.RestoreRun.Removed.{FailedAt, OnlyRemoves, removes_only_failed}

abbrev waiting_restore : Restore
waiting_restore = record {
  size = none;
  progress = 0;
  phase = "Pending";
  message = [];
  restic_phase = "";
  restic_message = none;
  start_at = none;
  end_at = none;
  extra = [];
}

abbrev world : World
world = record { restores = ("r1", waiting_restore) ∷ []; sent = [] }

abbrev output : Output
output = record { json = codes "{}"; metadata = []; total_bytes = 70 }

abbrev to_restore : RestoreType
to_restore = record {
  of_snapshot = true;
  path = codes "/Files/Home/Documents";
  sub_path = codes "photos";
  sub_path_timestamp = pos 17;
  location = "filesystem";
  password = [];
  total_bytes = 70;
  backup_url = none;
}

abbrev source : Source
source = record {
  kind = "file";
  path = codes "/Files/Home/Pictures";
  locations =
      (
        "filesystem",
        some (record { name = none; path = some (codes "/Files/Home/B"); endpoint = none }),
      )
      ∷ [];
}

abbrev job : Job
job = record {
  restore = "r1";
  kind = "file";
  account = "alice";
  restore_type = some to_restore;
  source = some source;
}

abbrev answers : Answers
answers = record {
  pvc = ok (record { node = codes "olares"; userspace = codes "/user"; appcache = codes "/cache" });
  services = record {
    token = ok tt;
    password = ok (codes "pw");
    integration_name = λ u. ok [];
    decoded = [];
  };
  disks = record {
    usage = λ p. ok (record { over_limit = false; free = 100 });
    dir_size = λ p. ok 70;
    with_margin = λ n. n;
  };
  runs = ok tt;
  now = 4000;
  round = λ k. record {
    now = 1;
    token = none;
    later = 2;
    later_token = none;
    download = λ t. downloaded output;
  };
  cache = [];
  token_text = λ e. codes "no token";
  cloud_token = err (codes "no token");
  download_with = λ t. downloaded output;
  download_from_disk = downloaded output;
  starts_app = ok tt;
  waits_for_app = tick still_runs ∷ ended ∷ [];
  attempt = λ k. record { done = false; now = 5000; reads = read; again = true; writes = true };
}

abbrev broken : Answers
broken = record answers { download_from_disk = download_failed (codes "broken") }

abbrev run_files : Answers → List FileOp
run_files a = (run_restore a job 1 1 world).files

success_renames :
    run_files answers
    ≡ renames
        (codes "/user/Home/Documents/photos.restore-17")
        (codes "/user/Home/Documents/photos-17")
      ∷ []
unfolding run_restore get trim_path_prefix path_join split join has_prefix trim_prefix itoa
    rename_restore_directory strip_prefix ready_for_restore_app show
success_renames = refl

failure_removes : run_files broken ≡ removes (codes "/user/Home/Documents/photos.restore-17") ∷ []
unfolding run_restore get trim_path_prefix path_join split join has_prefix trim_prefix itoa
    remove_restore_files show
failure_removes = refl

-- A name with the text in it is changed as well.
renames_more :
    rename_restore_directory false (codes "/user/my.restore.d/x.restore-1")
    ≡ renames (codes "/user/my.restore.d/x.restore-1") (codes "/user/my.d/x-1") ∷ []
unfolding rename_restore_directory strip_prefix
renames_more = refl

run_is_done : IsCompleted answers job 1 1 (run_restore answers job 1 1 world)
unfolding run_restore get put trim_path_prefix path_join split join has_prefix trim_prefix itoa
    rename_restore_directory strip_prefix ready_for_restore_app show update_restore_result
run_is_done = (_, refl, refl)

is_stored : get world.restores "r1" ≡ some waiting_restore
unfolding get
is_stored = refl

completed_needs_restore_example :
    (t : RestoreType) × (s : Source) × (p : Params) × (check_restore_exists job
        (some waiting_restore)
      ≡ some (t, s))
    × (checked answers job t s ≡ ok p)
    × Restored answers job 1 1 p
completed_needs_restore_example =
    completed_needs_restore answers job 1 1 waiting_restore world is_stored
      (λ h. ground (arith, eq_iff "Pending" "Completed")) run_is_done

restore_settles_example : Settled answers job (run_restore answers job 1 1 world)
restore_settles_example =
    restore_settles answers job 1 0 (refl, refl, refl, refl) waiting_restore world is_stored

removes_only_failed_example :
    (t : RestoreType) × (s : Source) × (p : Params) × (checked broken job t s ≡ ok p)
    × FailedAt broken job 1 1 (codes "/user/Home/Documents/photos.restore-17") p
    × OnlyRemoves broken job 1 1 (codes "/user/Home/Documents/photos.restore-17") [] []
removes_only_failed_example =
    removes_only_failed broken job 1 1 world (codes "/user/Home/Documents/photos.restore-17") [] []
      failure_removes

-- The restore of an app, which still runs when its context ends.
abbrev app_job : Job
app_job = record job { kind = "app" }

abbrev app_params : Params
app_params = record {
  password = codes "pw";
  root_path = codes "/user/Home";
  path = codes "/user/Home";
  location = record { kind = "filesystem"; name = []; endpoint = []; path = codes "/user/Home/B" };
}

app_exists : check_restore_exists app_job (some waiting_restore) ≡ some (to_restore, source)
unfolding check_restore_exists
app_exists = refl

app_passes : checked answers app_job to_restore source ≡ ok app_params
unfolding checked real_path path_join split join has_prefix trim_prefix
app_passes = refl

app_made : execute_job answers app_job 1 1 app_params ≡ ok output
unfolding execute_job
app_made = refl

unfinished_app_completes_example :
    (u : Restore) × (get (run_restore answers app_job 1 1 world).world.restores "r1" ≡ some u)
    × (u.phase ≡ "Completed")
unfinished_app_completes_example =
    unfinished_app_completes answers app_job 1 0 (refl, refl, refl, refl) waiting_restore world
      to_restore source app_params output (tick still_runs ∷ []) [] is_stored app_exists app_passes
      refl app_made refl refl refl (inl refl, tt)
