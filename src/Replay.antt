-- ===== src/Replay.antt =====
-- crates/replay/src: the engine that re-executes a recording.
pub mod Schedule
pub mod TidMap
pub mod CheckpointSelect
pub mod Watchpoint
pub mod State
pub mod Session
pub mod Snapshots
pub mod Mt
pub mod Drive
pub mod Scan
mod Tests
