-- ===== src/Snapshots.antt =====
-- Snapshot objects: their handler (pkg/handlers/handler_snapshot.go) and their controller
-- (pkg/controllers/snapshot_controller.go).
pub mod Types
pub mod Handler
pub mod Reconcile
pub mod Events
pub mod Settled
pub mod Notified
pub mod Progress
pub mod Retry
mod Tests
