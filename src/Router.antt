-- ===== src/Router.antt =====
-- The router of router/default.go.
pub mod Crc
pub mod Recent
pub mod Route
mod Runs
