-- ===== src/Access.antt =====
-- Who a request is from and what it may do: pkg/runtime/auth.go and pkg/runtime/identity.go.
pub mod Claims
pub mod Tokens
pub mod Identity
pub mod Meeting
pub mod Granting
mod Names
mod Tests
