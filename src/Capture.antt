-- ===== src/Capture.antt =====
-- crates/recorder/src/capture: what the recorder captures of its tracees.
pub mod Payload
pub mod Syscall
pub mod Sched
mod Tests
