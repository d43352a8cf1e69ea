-- ===== src/Tests.antt =====
-- Each theorem of the library that has conditions, at an input that meets them.
mod Fixtures
mod Runs
mod Services
mod Dispatch
mod Calls
mod Edges
mod Jobs
