-- ===== src/Restores/Tests.antt =====
-- Concrete restores.
use backup_server.Base.{
  ◌≡◌, ◌⊎◌, refl, String, true, false, none, some, [], ◌∷◌, ◌==◌, if◌then◌else◌, get, put, arith,
}
use backup_server.Worker.Add.{add_restore_task}
use backup_server.Worker.Reach.{init}
use backup_server.Restores.{
  Restore, World, conflict, written, Answers, readable, restart_message, with_phase,
  set_restore_phase, create_event,
}
use backup_server.Restores.Settled.{Writes, queued, pending_restore}

abbrev restore_in : String → Restore
restore_in phase = record {
  name = "r1";
  created = 10;
  owner = "ann";
  restore_type = readable;
  phase = phase;
  message = "";
  progress = 0;
  end_at = none;
}

abbrev world_in : String → World
world_in phase = record { restores = ("r1", restore_in phase) ∷ []; pools = init }

-- The first two updates conflict.
abbrev third_time : Answers
third_time = record {
  has_client = true;
  attempt = λ k. if k == 2 then written else conflict;
  accepts = false;
  reads = true;
  deletes = true;
}

third_time-Writes : Writes third_time
third_time-Writes = record { client = refl; step = 2; early = omega arith; succeeds = refl }

stored : (phase : String) → get (world_in phase).restores "r1" ≡ some (restore_in phase)
unfolding get
stored phase = refl

-- A task that the pool refuses fails with the message of a restart.
refused_message :
    (create_event third_time 20 5 (restore_in "Pending") (world_in "Pending")).restores
    ≡ ("r1", record (restore_in "Failed") { message = restart_message; end_at = some 20 }) ∷ []
unfolding create_event add_restore_task set_restore_phase get put
refused_message = refl

pending_restore_example :
    (queued "ann" "r1"
        (create_event third_time 20 5 (restore_in "Pending") (world_in "Pending")).pools
      ≡ true)
    ⊎ (get (create_event third_time 20 5 (restore_in "Pending") (world_in "Pending")).restores "r1"
        ≡ some (with_phase 20 "Failed" (restore_in "Pending")))
pending_restore_example =
    pending_restore third_time 20 5 (world_in "Pending") (restore_in "Pending") third_time-Writes
      (stored "Pending") refl refl
