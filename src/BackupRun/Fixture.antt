-- ===== src/BackupRun/Fixture.antt =====
-- The data of the tests: a stored snapshot and backup, and a world outside that answers well.
use backup_server.Base.{◌+◌, true, false, none, some, [], ◌∷◌, ◌++◌, ok}
use backup_server.Base.Bytes.{codes}
use backup_server.Base.Int.{pos}
use backup_server.Paths.{Roots}
use backup_server.Tokens.{SpaceToken}
use backup_server.BackupRun.Space.{Summary, uploaded, Usage, answered, Round}
use backup_server.BackupRun.Prepare.{Source, Disks}
use backup_server.BackupRun.App.{tick, ended, preparing}
use backup_server.BackupRun.Report.{Snapshot, Backup, World, Attempt, read}
use backup_server.BackupRun.Steps.{Answers, Job, fully}

abbrev pub waiting_snapshot : Snapshot
waiting_snapshot = record {
  backup_id = "b1";
  snapshot_type = none;
  snapshot_id = none;
  size = none;
  progress = 0;
  phase = "Pending";
  message = [];
  restic_phase = "";
  restic_message = none;
  end_at = none;
  extra = [];
}

abbrev pub some_backup : Backup
some_backup = record {
  size = none;
  restore_size = none;
  notified = true;
  extra = [];
  location = [];
}

abbrev pub world : World
world = record {
  snapshots = ("s1", waiting_snapshot) ∷ [];
  backups = ("b1", some_backup) ∷ [];
  sent = [];
}

abbrev pub roots : Roots
roots = record { node = codes "olares"; userspace = codes "/user"; appcache = codes "/cache" }

abbrev pub summary : Summary
summary = record {
  snapshot_id = codes "r1";
  total_bytes_processed = 70;
  restore_size = 80;
  json = codes "{}";
}

abbrev pub small_disks : Disks
small_disks = record {
  usage = λ p. ok (record { over_limit = false; free = 100 });
  dir_size = λ p. ok 70;
  with_margin = λ n. n + 3;
}

abbrev pub token : SpaceToken
token = record { did = "did:alice"; access_token = "t1"; expires_at = 100000 }

abbrev pub usage : Usage
usage = record { plan_level = pos 2; can_backup = true; total_size = 100; usage_size = 20 }

-- Every round answers that there is room and takes the upload.
abbrev pub good_round : Round
good_round = record {
  now = 1000;
  token = some token;
  usage = λ i. answered 200 (some usage);
  upload = λ t. uploaded summary (codes "st");
}

abbrev pub good_attempt : Attempt
good_attempt = record {
  done = false;
  now = 5000;
  reads_backup = read;
  reads_snapshot = read;
  writes_backup = true;
  writes_snapshot = true;
}

abbrev pub answers : Answers
answers = record {
  gets_snapshot = true;
  gets_backup = true;
  pvc = ok roots;
  kind_of_snapshot = ok fully;
  auth_token = ok tt;
  password = ok (codes "pw");
  disks = small_disks;
  runs = ok tt;
  app_json = codes "null";
  starts_app = ok tt;
  waits_for_app = tick preparing ∷ ended ∷ [];
  replace = λ f b. ok tt;
  accounts = some (codes "k1" ∷ []);
  token_of = λ n. none;
  no_cloud_token = codes "no token";
  upload_with = λ t. uploaded summary (codes "st");
  upload_to_disk = uploaded summary (codes "st");
  round = λ k. good_round;
  cache = [];
  token_text = λ e. codes "no token";
  usage_text = codes "no usage";
  stats = some 90;
  to_json = λ n e. n ++ e;
  attempt = λ k. good_attempt;
}

abbrev pub source : Source
source = record {
  kind = "file";
  path = codes "/Files/Home/Pictures";
  locations =
      (
        "filesystem",
        some (record { name = none; path = some (codes "/Files/Home/B"); endpoint = none }),
      )
      ∷ [];
}

abbrev pub job : Job
job = record {
  backup = "b1";
  owner = codes "alice";
  account = "alice";
  snapshot = "s1";
  source = source;
}
