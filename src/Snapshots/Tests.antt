-- ===== src/Snapshots/Tests.antt =====
-- Concrete snapshots, reconciled.
use backup_server.Base.{String, ◌≡◌, ◌⊎◌, refl, true, false, none, some, [], ◌∷◌, get, ok, arith}
use backup_server.Base.Int.{pos}
use backup_server.Snapshots.Types.{
  NotifyState, push, Snapshot, Backup, World, pending, running, failed,
}
use backup_server.Snapshots.Handler.{replied, update, get_by_id, with_phase, update_progress}
use backup_server.Snapshots.Reconcile.{Answers, reconcile}
use backup_server.Worker.Queued.{Queued}
use backup_server.Snapshots.Settled.{Serves, Finds, pending_settled}
use backup_server.Snapshots.Retry.{Server, Grows}

abbrev unnotified : NotifyState
unnotified = record { prepare = false; progress = false; result = false }

abbrev snapshot_in : String → Snapshot
snapshot_in phase = record {
  name = "s1";
  created = 10;
  backup_id = "b1";
  phase = phase;
  message = "";
  progress = pos 0;
  start_at = 10;
  end_at = none;
  extra = push unnotified;
}

abbrev backup_one : Backup
backup_one = record { name = "b1"; owner = "alice"; location = some "space" }

abbrev world_in : String → World
world_in phase = record {
  snapshots = ("s1", snapshot_in phase) ∷ [];
  backups = ("b1", backup_one) ∷ [];
  pools = record { user_pools = []; sent = [] };
}

abbrev all_well : Answers
all_well = record {
  client = true;
  reads = true;
  reads_backup = true;
  reads_again = true;
  writes = true;
  accepts = true;
  has_token = true;
  notifies = true;
  text_of = λ e. "refused";
}

all_well-Serves : Serves all_well
all_well-Serves = record {
  client = refl;
  reads = refl;
  reads_backup = refl;
  reads_again = refl;
  writes = refl;
}

world_in-Finds : (phase : String) → Finds (world_in phase) (snapshot_in phase) backup_one
unfolding get
world_in-Finds phase = record { snapshot = refl; backup = refl }

pending_settled_example :
    Queued "alice" "b1" "s1" (reconcile all_well 20 5 "s1" (world_in pending)).1.pools
    ⊎ ((message : String) × (get (reconcile all_well 20 5 "s1" (world_in pending)).1.snapshots "s1"
          ≡ some (with_phase 20 failed message (snapshot_in pending))))
pending_settled_example =
    pending_settled all_well 20 5 (world_in pending) (snapshot_in pending) backup_one
      all_well-Serves (world_in-Finds pending) refl

progress_written :
    (update_progress true true "s1" (pos 40) (world_in running).snapshots).0 ≡ replied (ok tt)
unfolding update_progress get_by_id update get
progress_written = refl

stored_running : get (world_in running).snapshots "s1" ≡ some (snapshot_in running)
unfolding get
stored_running = refl

abbrev busy : Server
busy = record { version = λ n. n; accepts = λ n. true }

busy-Grows : Grows busy
busy-Grows = record { grows = λ n. omega arith }
