-- ===== src/Registry.antt =====
-- RouteRegistry: pkg/runtime/config_registry.go, upstream.go, rollout.go, region.go and
-- tenant_registry.go.
pub mod State
pub mod Routes
pub mod Upstreams
pub mod Rollouts
pub mod Regions
pub mod Tenants
pub mod Shape
pub mod Invariant
pub mod Weights
pub mod Pool
pub mod Selection
pub mod Decisions
pub mod Failover
pub mod Lookups
pub mod Access
mod Tests
