-- ===== src/Decoder/Go.antt =====
-- crates/decoder/src/go: goroutines, read from the memory of a stopped Go program.
pub mod Status
pub mod Version
pub mod Offsets
pub mod Walk
pub mod Goroutines
mod Tests
