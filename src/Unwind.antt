-- ===== src/Unwind.antt =====
-- crates/unwind: the modules of a process.
pub mod Maps
mod Tests
