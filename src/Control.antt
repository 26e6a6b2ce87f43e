-- ===== src/Control.antt =====
-- The REST API of the control plane: pkg/runtime/controlplane.go.
pub mod Auth
pub mod Routing
pub mod Exclusive
pub mod Server
pub mod PolicyHandlers
pub mod PolicyCalls
pub mod PolicyReplies
pub mod Backing
pub mod Gates
pub mod Deployments
mod Tests
