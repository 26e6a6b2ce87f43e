-- ===== src/Router.antt =====
-- pkg/runtime/router.go, with normalizePath of pkg/runtime/proxy.go.
pub mod Path
pub mod Pattern
pub mod Compile
pub mod Match
pub mod Table
pub mod Priority
pub mod Dispatch
pub mod Determinism
pub mod Captures
pub mod Serve
pub mod Index
pub mod Values
mod Tests
