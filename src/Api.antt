-- ===== src/Api.antt =====
-- The handlers behind the HTTP routes (server/src/routes) and behind the queue of jobs.
pub mod Rows
pub mod Secrets
pub mod Sites
pub mod Cameras
pub mod Members
pub mod Intake
pub mod Events
pub mod Jobs
pub mod Isolation
pub mod Requests
pub mod Internal
pub mod Objects
mod Examples
