-- ===== src/Gateway.antt =====
-- The gateway (gateway/remote_jobs_gateway): it routes frames between workers and the app.
pub mod Frames
pub mod RateLimiter
pub mod Handshake
pub mod Bridge
