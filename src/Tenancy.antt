-- ===== src/Tenancy.antt =====
-- The tenant middleware of pkg/runtime/tenant.go.
pub mod Middleware
pub mod Entries
pub mod Agreement
pub mod Quota
pub mod Bounds
pub mod Waiting
mod Tests
