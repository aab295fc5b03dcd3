-- ===== src/Ai.antt =====
-- The detection pipeline: from a raw detection to an incident.
pub mod Types
pub mod Zone
pub mod Schedule
pub mod Rules
pub mod Engine
pub mod Tracker
