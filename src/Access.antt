-- ===== src/Access.antt =====
-- Who may do what: roles, signed tokens, sessions and the guards of a request.
pub mod Errors
pub mod Rbac
pub mod Directory
pub mod Tokens
pub mod Sessions
pub mod Guards
