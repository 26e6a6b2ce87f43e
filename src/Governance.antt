-- ===== src/Governance.antt =====
-- pkg/runtime/governance.go: approvals, the event log, the release workflow, deployment manifests and
-- the deployment ledger. RoutePolicy and SLOPolicy are in Registry/State.
pub mod Gate
pub mod Events
pub mod Workflow
pub mod Approvals
pub mod Transitions
pub mod Timeline
pub mod Manifest
pub mod Ledger
pub mod Store
pub mod Releases
mod Tests
