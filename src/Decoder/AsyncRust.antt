-- ===== src/Decoder/AsyncRust.antt =====
-- crates/decoder/src/async_rust: async tasks, read from the coroutines of a stopped Rust program.
pub mod Layout
pub mod State
pub mod Decode
pub mod Tasks
pub mod Owned
pub mod Versions
pub mod Plan
pub mod Elf
mod Tests
mod ImageTests
