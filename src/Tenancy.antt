-- ===== src/Tenancy.antt =====
-- Tenants: the shared state, row level security, and what one tenant cannot do to another.
pub mod World
pub mod Rls
pub mod Isolation
pub mod Triples
pub mod Outcomes
pub mod Fixtures
