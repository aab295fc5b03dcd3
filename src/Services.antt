-- ===== src/Services.antt =====
-- The services under the handlers (server/src/services).
pub mod Storage
pub mod Evidence
pub mod Notification
pub mod Cache
pub mod Resource
