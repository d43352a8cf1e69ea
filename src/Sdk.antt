-- ===== src/Sdk.antt =====
-- The job SDK (sdk/nautobot_remote_jobs_sdk).
pub mod Redaction
pub mod Logging
pub mod Secrets
