-- ===== src/Realtime.antt =====
-- server/src/realtime: who gets an organization's messages.
pub mod Hub
