-- ===== src/Worker.antt =====
-- The worker agent (worker/remote_worker).
pub mod Reports
pub mod Sinks
pub mod Rpc
pub mod Journal
pub mod Connection
pub mod Agent
pub mod Paths
pub mod RunTask
