-- ===== src/Policies.antt =====
-- The versions of route policies: pkg/runtime/policy_versioning.go.
pub mod Versions
pub mod Steps
pub mod Replacing
pub mod Numbering
pub mod Appending
pub mod Restart
mod Tests
