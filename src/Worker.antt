-- ===== src/Worker.antt =====
-- pkg/worker: the pools of backup and restore tasks.
pub mod Types
pub mod Add
pub mod Cancel
pub mod Life
pub mod Invariant
pub mod Reach
pub mod Effects
pub mod Stopped
pub mod Moves
pub mod Queued
pub mod Doomed
mod Tests
