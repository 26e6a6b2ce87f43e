-- ===== src/Proxy.antt =====
-- pkg/runtime/proxy.go. Times are nanoseconds, and 0 is Go's zero time.
pub mod Breaker
pub mod Limiter
pub mod Retry
pub mod Failover
pub mod Join
pub mod Health
pub mod Serve
mod Tests
