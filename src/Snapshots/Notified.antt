-- ===== src/Snapshots/Notified.antt =====
-- A snapshot that is through is reconciled until its result is notified, and then never again.
use backup_server.Base.{◌≡◌, ◌⊎◌, refl, true, inl, inr}
use backup_server.Snapshots.Types.{NotifyState, push, Snapshot}
use backup_server.Worker.Types.{WorkerPool}
use backup_server.Worker.Cancel as Cancel

abbrev pub marked : NotifyState → Snapshot → Snapshot
marked n s = record s { extra = push (record n { result = true }) }

pub Cancel-cases :
    (o : Cancel.Outcome)
    → ((p : WorkerPool) × (o ≡ Cancel.returned p)) ⊎ ((p : WorkerPool) × (o ≡ Cancel.panicked p))
Cancel-cases (Cancel.returned p) = inl (p, refl)
Cancel-cases (Cancel.panicked p) = inr (p, refl)
