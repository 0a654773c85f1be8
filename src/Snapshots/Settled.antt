-- ===== src/Snapshots/Settled.antt =====
-- What one reconciliation does with a snapshot, when the API server answers.
use backup_server.Base.{
  ℕ, String, ◌≡◌, ◌⊎◌, ◌∙◌, refl, true, some, Dict, get, put, get-put, ok, ltb, arith, Bool-cases,
  Result-cases, inl, inr,
}
use text.Mathlib.TextPositions.{eq_refl}
use backup_server.Snapshots.Types.{Snapshot, Backup, World, pending, failed}
use backup_server.Snapshots.Handler.{replied, update, get_by_id, update_phase, with_phase}
use backup_server.Snapshots.Reconcile.{
  Answers, restart_message, fail_snapshot, on_pending, on_phase, reconcile,
}
use backup_server.Worker.Types.{WorkerPool}
use backup_server.Worker.Add.{add_backup_task}
use backup_server.Worker.Queued.{Queued, add_backup_task-Queued}

-- The API server answers every call.
pub record Serves (a : Answers) : Type 0 where
  pub client : a.client ≡ true
  pub reads : a.reads ≡ true
  pub reads_backup : a.reads_backup ≡ true
  pub reads_again : a.reads_again ≡ true
  pub writes : a.writes ≡ true

-- The snapshot is stored under its name, and so is its backup.
pub record Finds (w : World) (s : Snapshot) (b : Backup) : Type 0 where
  pub snapshot : get w.snapshots s.name ≡ some s
  pub backup : get w.backups s.backup_id ≡ some b

pub found :
    (id : String) (store : Dict Snapshot) (s : Snapshot)
    → get store id ≡ some s
    → get_by_id true id store ≡ ok s
unfolding get_by_id
found id store s f = rw f

-- `UpdatePhase` of a stored object writes it with the phase.
update_phase_found :
    (now : ℕ) (id phase message : String) (store : Dict Snapshot) (s : Snapshot)
    → get store id ≡ some s
    → update_phase true true now id phase message store ≡ (
      replied (ok tt),
      put store (with_phase now phase message s).name (with_phase now phase message s),
    )
unfolding update_phase update
update_phase_found now id phase message store s f = rw (found id store s f, update_phase) refl

name-with_phase :
    (now : ℕ) (phase message : String) (s : Snapshot)
    → (with_phase now phase message s).name ≡ s.name
name-with_phase now phase message s = ground arith

module _ (a : Answers) (now started : ℕ) (w : World) (s : Snapshot) (b : Backup) (v : Serves a)
    (f : Finds w s b) where
  pub reconcile-on_phase : reconcile a now started s.name w ≡ on_phase a now started b s w
  unfolding reconcile
  reconcile-on_phase = rw (v.client, v.reads, f.snapshot, v.reads_backup, f.backup)

  -- A snapshot that fails is stored with the phase, the reason and the time.
  pub get-fail_snapshot :
      (message : String) (pools : WorkerPool)
      → get (fail_snapshot a now s message (record w { pools = pools })).snapshots s.name
        ≡ some (with_phase now failed message s)
  unfolding fail_snapshot
  get-fail_snapshot message pools =
      rw
        (
          v.reads_again,
          v.writes,
          update_phase_found now s.name failed message w.snapshots s f.snapshot,
        )
        (rw (get-put, name-with_phase now failed message s, eq_refl) refl)

  at_pending : s.phase ≡ pending → reconcile a now started s.name w ≡ on_pending a now started b s w
  at_pending e = reconcile-on_phase ∙ (unfold on_phase in rw (e, on_phase))

  -- A pending snapshot is not forgotten, when it and its backup are stored and the API server
  -- answers: after its reconciliation a new task of this snapshot waits in the pool of its owner,
  -- or it is stored as failed with a message.
  pub pending_settled :
      s.phase ≡ pending
      → Queued b.owner b.name s.name (reconcile a now started s.name w).1.pools
        ⊎ ((message : String) × (get (reconcile a now started s.name w).1.snapshots s.name
              ≡ some (with_phase now failed message s)))
  unfolding on_pending
  pending_settled e =
      let added = add_backup_task a.accepts b.owner b.name s.name w.pools in
      rw (at_pending e) (elim (Bool-cases (ltb started s.created)) [
        | inr old ↦ rw old (inr (restart_message, get-fail_snapshot restart_message w.pools))
        | inl new ↦ elim (Result-cases added.0) [
          | inl r ↦
              rw (new, r.1)
                (inl (add_backup_task-Queued a.accepts b.owner b.name s.name w.pools r.1))
          | inr r ↦ rw (new, r.1) (inr (a.text_of r.0, get-fail_snapshot (a.text_of r.0) added.1))
        ]
      ])
