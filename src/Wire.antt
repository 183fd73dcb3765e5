-- ===== src/Wire.antt =====
-- The wire format of api/remoting.go.
pub mod Value
pub mod Varint
pub mod Read
pub mod Write
pub mod Parse
pub mod Calls
pub mod Frame
mod Runs
