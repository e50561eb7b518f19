-- ===== src/Decoder.antt =====
-- crates/decoder: the logical concurrency tree that the decoders build.
pub mod TaskTree
pub mod Frame
pub mod Native
pub mod Go
pub mod AsyncRust
mod Tests
