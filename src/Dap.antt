-- ===== src/Dap.antt =====
-- crates/dap: the debug adapter's navigation over a recorded trace.
pub mod Json
pub mod Text
pub mod Transport
pub mod Backend
pub mod Interface
pub mod Protocol
pub mod Stub
pub mod Server
mod Tests
