-- ===== src/App.antt =====
-- The Nautobot app (nautobot_remote_jobs): its models and its dispatch.
pub mod Choices
pub mod Records
pub mod Runs
pub mod Store
pub mod Reaper
pub mod Claims
pub mod Completion
pub mod Schedules
pub mod Ingestion
pub mod Zones
pub mod Submission
pub mod Cancel
pub mod Enrollment
pub mod Rpc
pub mod System
pub mod Api
