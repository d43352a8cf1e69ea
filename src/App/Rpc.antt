-- ===== src/App/Rpc.antt =====
-- nautobot_remote_jobs/rpc/handlers.py: the worker's calls on the server.
pub mod Params
pub mod Handlers
pub mod Dispatch
pub mod Failures
pub mod Answers
pub mod Keeps
