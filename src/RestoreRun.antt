-- ===== src/RestoreRun.antt =====
-- The run of a restore: pkg/storage/storage_restore.go.
pub mod Report
pub mod Prepare
pub mod Steps
pub mod Whole
pub mod Own
pub mod Completed
pub mod Ends
pub mod Removed
mod Tests
