-- ===== src/Cli.antt =====
-- crates/mirrorscope-cli: the command line.
pub mod Args
pub mod Commands
mod Tests
