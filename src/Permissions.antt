-- ===== src/Permissions.antt =====
-- The older permission gate (internal/permissions) with the table of overrides behind it
-- (internal/store/postgres/postgres.go). The database does not fail; an agent may be missing.
pub mod Capability
pub mod Templates
pub mod Overrides
pub mod Gate
mod Tests
