-- ===== src/Metrics/Counters.antt =====
-- Metrics and its Record, Snapshot, GlobalPercentiles and RoutePercentiles (pkg/runtime/metrics.go).
use fgoths_framework.Prelude.{
  ℕ, ◌+◌, ◌/◌, Bool, [], ◌∷◌, Option, none, some, is_empty, leb, ◌==◌, if◌then◌else◌, map,
}
use fgoths_framework.Prelude.Int.{ℤ, pos, pos_part}
use fgoths_framework.Prelude.Text.{Str, codes, trim_space, to_upper}
use fgoths_framework.Prelude.Maps.{Map, lookup, insert}
use fgoths_framework.Router.Path.{normalize_path}
use fgoths_framework.Metrics.Histogram
use fgoths_framework.Metrics.Histogram.{
  DurationPercentiles, RouteHistogram, no_percentiles, new_route_histogram, record_sample,
}
use fgoths_framework.Metrics.Window.{ErrorRing, new_error_ring, push_outcome}

pub record Metrics : Type 0 where
  pub total_requests : ℕ
  pub total_errors : ℕ
  pub total_latency : ℕ
  pub by_method : Map ℕ
  pub by_route : Map ℕ
  pub by_status : Map ℕ
  pub by_route_latency : Map ℕ
  pub by_route_histogram : Map RouteHistogram
  pub latency_histogram : RouteHistogram
  pub outcomes : ErrorRing

abbrev pub error_window_cap : ℕ
error_window_cap = 1000

unfoldable pub new_metrics : Metrics
unfolding new_route_histogram
new_metrics = record {
  total_requests = 0;
  total_errors = 0;
  total_latency = 0;
  by_method = [];
  by_route = [];
  by_status = [];
  by_route_latency = [];
  by_route_histogram = [];
  latency_histogram = new_route_histogram 10000;
  outcomes = new_error_ring;
}

-- What Go reads of a missing key.
abbrev pub or_zero : Option ℕ → ℕ
or_zero none = 0
or_zero (some n) = n

unfoldable pub add_at : Str → ℕ → Map ℕ → Map ℕ
add_at k n m = insert k (or_zero (lookup k m) + n) m

-- The key of a status in `by_status`, whose keys are numbers in Go.
abbrev pub status_key : ℕ → Str
status_key status = status ∷ []

abbrev pub is_error : ℕ → Bool
is_error status = leb 400 status

abbrev pub or_new : Option RouteHistogram → RouteHistogram
or_new none = new_route_histogram 1000
or_new (some h) = h

-- `elapsed` is the first of the optional durations, if there is one.
abbrev pub duration_of : Option ℤ → ℕ
duration_of none = 0
duration_of (some d) = pos_part d

abbrev pub method_of : Str → Str
method_of method = let m = to_upper (trim_space method) in if is_empty m then codes "GET" else m

unfoldable pub record_request : Str → Str → ℕ → Option ℤ → Metrics → Metrics
unfolding add_at push_outcome record_sample
record_request method route status elapsed m =
    let p = normalize_path route in
    let d = duration_of elapsed in
    record {
      total_requests = m.total_requests + 1;
      total_errors = if is_error status then m.total_errors + 1 else m.total_errors;
      total_latency = m.total_latency + d;
      by_method = add_at (method_of method) 1 m.by_method;
      by_route = add_at p 1 m.by_route;
      by_status = add_at (status_key status) 1 m.by_status;
      by_route_latency = add_at p d m.by_route_latency;
      by_route_histogram =
          insert p (record_sample (pos d) (or_new (lookup p m.by_route_histogram)))
            m.by_route_histogram;
      latency_histogram = record_sample (pos d) m.latency_histogram;
      outcomes = push_outcome error_window_cap (is_error status) m.outcomes;
    }

pub record MetricsSnapshot : Type 0 where
  pub total_requests : ℕ
  pub total_errors : ℕ
  pub total_latency : ℕ
  pub avg_latency : ℕ
  pub by_method : Map ℕ
  pub by_route : Map ℕ
  pub by_status : Map ℕ
  pub by_route_latency : Map ℕ
  pub by_route_percentiles : Map DurationPercentiles

abbrev snapshot_all : Map RouteHistogram → Map RouteHistogram
snapshot_all hs = map (λ x. (x.0, (Histogram.snapshot x.1).0)) hs

abbrev percentiles_all : Map RouteHistogram → Map DurationPercentiles
percentiles_all hs = map (λ x. (x.0, (Histogram.snapshot x.1).1)) hs

-- The histograms keep what they computed.
unfoldable pub take_snapshot : Metrics → Metrics × MetricsSnapshot
take_snapshot m = (
  record m { by_route_histogram = snapshot_all m.by_route_histogram },
  record {
    total_requests = m.total_requests;
    total_errors = m.total_errors;
    total_latency = m.total_latency;
    avg_latency = if m.total_requests == 0 then 0 else m.total_latency / m.total_requests;
    by_method = m.by_method;
    by_route = m.by_route;
    by_status = m.by_status;
    by_route_latency = m.by_route_latency;
    by_route_percentiles = percentiles_all m.by_route_histogram;
  },
)

unfoldable pub global_percentiles : Metrics → Metrics × DurationPercentiles
global_percentiles m =
    let (h, d) = Histogram.snapshot m.latency_histogram in (record m { latency_histogram = h }, d)

unfoldable pub route_percentiles : Str → Metrics → Metrics × DurationPercentiles
route_percentiles route m = elim (lookup (normalize_path route) m.by_route_histogram) [
  | none ↦ (m, no_percentiles)
  | some h ↦
      let (h', d) = Histogram.snapshot h in
      (record m { by_route_histogram = insert (normalize_path route) h' m.by_route_histogram }, d)
]
