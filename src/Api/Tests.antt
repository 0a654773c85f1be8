-- ===== src/Api/Tests.antt =====
-- Requests that are written out.
use backup_server.Base.{
  ◌≡◌, ◌≢◌, refl, sym, ap, String, true, false, none, some, [], ◌∷◌, get, put, put, ok,
}
use backup_server.Base.Bytes.{codes, trim_prefix, has_prefix, join, split, cut, trim_right}
use backup_server.Base.Int.{pos}
use backup_server.Paths.{real_path}
use backup_server.Snapshots.Types as Types
use backup_server.Snapshots.Handler.{update_phase}
use backup_server.Backups.{Backup}
use backup_server.Restores as Restores
use backup_server.BackupUrl.{BackupUrl, Detail, parse_restore_backup_url_detail}
use backup_server.BackupUrl.Fixture.{text, outside}
use backup_server.BackupUrl.Names.{split_path}
use backup_server.BackupUrl.Tags.{get_backup_type_from_tags}
use backup_server.Api.{World, success, Answers, cancel_snapshot, cancel_restore}
use backup_server.Api.Stopped.{StoredIn, AsAsked, cancel_restore-AsAsked}
use backup_server.Api.Panics.{Final, cancel_snapshot-Final}
use backup_server.Api.Restoring as Restoring
use backup_server.Api.Restoring.{Request, Created, Remote, add_restore, can_restore}
use backup_server.Api.Accepted.{IsLinked, Restores, snapshot_creates_nothing, created_from_link}

abbrev restore_one : Restores.Restore
restore_one = record {
  name = "r1";
  created = 10;
  owner = "ann";
  restore_type = Restores.readable;
  phase = "Running";
  message = "";
  progress = 0;
  end_at = none;
}

abbrev snapshot_one : Types.Snapshot
snapshot_one = record {
  name = "s1";
  created = 1;
  backup_id = "b1";
  phase = "Running";
  message = "";
  progress = pos 0;
  start_at = 1;
  end_at = none;
  extra = Types.nil;
}

abbrev backup_one : Backup
backup_one = record {
  name = "b1";
  owner = "ann";
  location = some "space";
  policy = none;
  deleted = false;
  notified = true;
}

abbrev world : World
world = record {
  backups = ("b1", backup_one) ∷ [];
  snapshots = ("s1", snapshot_one) ∷ [];
  restores = ("r1", restore_one) ∷ [];
}

abbrev all_well : Answers
all_well = record {
  reads_backup = true;
  reads = true;
  again = true;
  writes = true;
  then_writes = true;
  now = 5;
  new_id = "s2";
}

deleted_now : (cancel_restore all_well "delete" "r1" world).0 ≡ success
unfolding cancel_restore get put
deleted_now = refl

cancel_restore-AsAsked_example :
    StoredIn all_well "r1"
      (AsAsked all_well "r1" "delete")
      (cancel_restore all_well "delete" "r1" world).1
cancel_restore-AsAsked_example = cancel_restore-AsAsked all_well "r1" "delete" world deleted_now

abbrev stop : String
stop = "stop"

named : (s : Types.Snapshot) → get world.snapshots "s1" ≡ some s → s.name ≡ "s1"
unfolding get
named s h = let same : snapshot_one ≡ s = cc in ap (λ x. x.name) (sym same)

canceled_now : (cancel_snapshot all_well "cancel" "b1" "s1" world).0 ≡ success
unfolding cancel_snapshot get put update_phase
canceled_now = refl

cancel_snapshot-Final_example :
    Final all_well "s1" (cancel_snapshot all_well "cancel" "b1" "s1" world).1
cancel_snapshot-Final_example =
    cancel_snapshot-Final all_well "s1" "cancel" "b1" world named canceled_now

backup_there : get world.backups "b1" ≡ some backup_one
unfolding get
backup_there = refl

snapshot_missing : get world.snapshots "s9" ≡ none
unfolding get
snapshot_missing = refl

abbrev remote : Remote
remote = record { tags = codes "backup-type=file" ∷ []; total_bytes = some 7 }

abbrev answers : Restoring.Answers
answers = record {
  cluster = some (codes "c1");
  snapshot = λ i. some (record {
    backup_id = codes "b1";
    snapshot_id = some (codes "9b1c");
    created_at = some (codes "5");
  });
  backup = λ i. ok none;
  decode = λ s. some s;
  encode = λ s. s;
  outside = outside;
  remote = λ u d. ok remote;
  has_wise = true;
  now = pos 5;
  creates = true;
  new_id = "r9";
}

abbrev by_link : Request
by_link = record {
  backup_url = text;
  password = codes "secret";
  snapshot_id = [];
  path = codes "/Files/Home/";
  sub_path = codes "back";
}

abbrev by_snapshot : Request
by_snapshot = record by_link { backup_url = []; snapshot_id = codes "s1" }

snapshot_creates_nothing_example :
    ((add_restore answers by_snapshot (codes "ann") []).0 ≢ ok tt)
    × ((add_restore answers by_snapshot (codes "ann") []).1 ≡ [])
snapshot_creates_nothing_example =
    snapshot_creates_nothing answers by_snapshot (codes "ann") [] refl

link_works : (add_restore answers by_link (codes "ann") []).0 ≡ ok tt
unfolding add_restore parse_restore_backup_url_detail trim_right trim_prefix cut split_path
    real_path has_prefix join split get_backup_type_from_tags
link_works = refl

created_from_link_example :
    (u : BackupUrl) × (d : Detail) × (m : Remote) × (c : Created) × IsLinked answers by_link u d m
    × (can_restore answers by_link (get_backup_type_from_tags m.tags) ≡ true)
    × Restores answers by_link (codes "ann") u d m c
    × ((add_restore answers by_link (codes "ann") []).1 ≡ put [] "r9" c)
created_from_link_example = created_from_link answers by_link (codes "ann") [] link_works
