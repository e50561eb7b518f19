-- ===== src/Trace.antt =====
-- crates/recorder/src/trace: the append-only trace file.
pub mod Format
pub mod Body
pub mod Cmdline
pub mod Writer
pub mod Reader
pub mod File
mod Tests
