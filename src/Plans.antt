-- ===== src/Plans.antt =====
-- Signed artifacts, release and promotion plans, compliance reports and configuration diffs:
-- pkg/runtime/artifacts.go and pkg/runtime/governance.go.
pub mod Artifacts
pub mod Release
pub mod Promotion
pub mod Diff
pub mod Signing
pub mod Readiness
pub mod Removed
pub mod Stages
mod Tests
