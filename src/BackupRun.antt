-- ===== src/BackupRun.antt =====
-- The run of a backup: pkg/storage/storage_backup.go.
pub mod Cloud
pub mod Chosen
pub mod Space
pub mod Rounds
pub mod Room
pub mod Report
pub mod Storing
pub mod Reported
pub mod Own
pub mod Progress
pub mod Paced
pub mod Prepare
pub mod App
pub mod Steps
pub mod Whole
pub mod Completed
pub mod Settled
pub mod Ends
mod Fixture
mod Tests
mod PartTests
