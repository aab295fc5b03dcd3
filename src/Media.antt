-- ===== src/Media.antt =====
-- Camera connections: status, probes, frames and the worker that drives them.
pub mod Status
pub mod Health
pub mod Pipeline
pub mod Frames
pub mod Worker
