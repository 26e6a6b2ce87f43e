-- ===== src/Metrics.antt =====
-- pkg/runtime/metrics.go.
pub mod Sorting
pub mod Histogram
pub mod Percentiles
pub mod Window
pub mod Recent
pub mod Counters
pub mod Totals
pub mod Ring
mod Tests
