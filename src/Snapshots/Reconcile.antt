-- ===== src/Snapshots/Reconcile.antt =====
-- `Reconcile` of the snapshot controller.
use backup_server.Base.{
  ◌&&◌, true, ℕ, String, str_eq, Bool, not, none, some, if◌then◌else◌, get, ok, err, ltb,
}
use backup_server.Snapshots.Types.{
  Snapshot, Backup, World, is_final, pending, running, failed, canceled,
}
use backup_server.Snapshots.Handler.{replied, panicked, update_phase, update_notify_result_state}
use backup_server.Worker.Types.{Refusal}
use backup_server.Worker.Add.{add_backup_task}
use backup_server.Worker.Cancel as Cancel
use backup_server.Worker.Cancel.{cancel_snapshot}

-- What the world outside answers in one call: whether a client is had, whether the API server
-- answers the two gets and those of the handler, whether it accepts the update, whether the pond
-- pool accepts a task, whether the space gives a token and takes the result; and the text of a refusal.
pub record Answers : Type 0 where
  pub client : Bool
  pub reads : Bool
  pub reads_backup : Bool
  pub reads_again : Bool
  pub writes : Bool
  pub accepts : Bool
  pub has_token : Bool
  pub notifies : Bool
  pub text_of : Refusal → String

-- Done, an error that is returned with a delay of so many seconds or none, or a panic.
pub data Outcome : Type 0 where
  done failed_now crashed : Outcome
  again : ℕ → Outcome

abbrev pub restart_message : String
restart_message = "Backup task terminated due to service restart."

-- notifySnapshotResult: only for a backup in the space a token is asked for and the result sent.
-- The phase and the size that are then read, through pointers, are taken to be set.
unfoldable pub result_notified : Bool → Bool → Backup → Bool
result_notified has_token notifies b = elim b.location [
  | none ↦ true
  | some location ↦ if str_eq location "space" then has_token && notifies else true
]

module _ (a : Answers) (now : ℕ) where
  -- The answer of UpdatePhase is not looked at.
  unfoldable pub fail_snapshot : Snapshot → String → World → World
  fail_snapshot s message w = record w {
    snapshots = (update_phase a.reads_again a.writes now s.name failed message w.snapshots).1;
  }

  unfoldable pub on_pending : ℕ → Backup → Snapshot → World → Outcome × World
  unfolding fail_snapshot
  on_pending started b s w =
      if ltb started s.created
      then (let (r, pools) = add_backup_task a.accepts b.owner b.name s.name w.pools in
          elim r [
            | ok u ↦ (done, record w { pools = pools })
            | err e ↦ (done, fail_snapshot s (a.text_of e) (record w { pools = pools }))
          ])
      else (done, fail_snapshot s restart_message w)

  unfoldable pub on_running : ℕ → Snapshot → World → Outcome × World
  unfolding fail_snapshot
  on_running started s w =
      if not (ltb started s.created) then (done, fail_snapshot s restart_message w) else (done, w)

  unfoldable pub notify_result : Backup → Snapshot → World → Outcome × World
  notify_result b s w =
      if not (result_notified a.has_token a.notifies b)
      then (again 5, w)
      else (let (r, store) = update_notify_result_state a.writes s w.snapshots in
          elim r [
            | replied e ↦ (done, record w { snapshots = store })
            | panicked ↦ (crashed, record w { snapshots = store })
          ])

  unfoldable pub on_final : Backup → Snapshot → World → Outcome × World
  unfolding notify_result
  on_final b s w =
      if str_eq s.phase canceled
      then elim (cancel_snapshot b.owner s.name w.pools) [
        | Cancel.returned pools ↦ notify_result b s (record w { pools = pools })
        | Cancel.panicked pools ↦ (crashed, record w { pools = pools })
      ]
      else notify_result b s w

  unfoldable pub on_phase : ℕ → Backup → Snapshot → World → Outcome × World
  unfolding on_pending on_running on_final
  on_phase started b s w =
      if str_eq s.phase pending
      then on_pending started b s w
      else if str_eq s.phase running
      then on_running started s w
      else if is_final s.phase
      then on_final b s w
      else (done, w)

  -- `started` is the time at which the controller started, `id` names the object of the request.
  unfoldable pub reconcile : ℕ → String → World → Outcome × World
  unfolding on_phase
  reconcile started id w =
      if not a.client
      then (again 3, w)
      else if not a.reads
      then (failed_now, w)
      else elim (get w.snapshots id) [
        | none ↦ (done, w)
        | some s ↦
            if not a.reads_backup then (failed_now, w) else elim (get w.backups s.backup_id) [
              | none ↦ (done, w)
              | some b ↦ on_phase started b s w
            ]
      ]
