-- ===== src/Metrics/Totals.antt =====
-- The counters of Metrics after any requests (pkg/runtime/metrics.go).
use fgoths_framework.Prelude.{
  ℕ, ◌+◌, ◌≡◌, refl, Bool, true, false, inl, inr, List, [], ◌∷◌, Option, arith, if◌then◌else◌, ap,
  Bool-cases,
}
use fgoths_framework.Prelude.Int.{ℤ}
use fgoths_framework.Prelude.Text.{Str, str_eq, str_eq_iff}
use fgoths_framework.Prelude.Maps.{Map, lookup, insert}
use fgoths_framework.Router.Path.{normalize_path}
use fgoths_framework.Metrics.Counters.{
  Metrics, new_metrics, or_zero, add_at, status_key, is_error, duration_of, method_of,
  record_request,
}

-- The sum of the values whose key passes the test.
abbrev pub sum_where : (Str → Bool) → Map ℕ → ℕ
sum_where p [] = 0
sum_where p ((k, n) ∷ m) = (if p k then n else 0) + sum_where p m

abbrev pub sum_all : Map ℕ → ℕ
sum_all = sum_where (λ k. true)

-- The status is that of an error.
abbrev pub is_error_key : Str → Bool
is_error_key [] = false
is_error_key (status ∷ _) = is_error status

sum_where-insert :
    (p : Str → Bool) (k : Str) (w : ℕ) (m : Map ℕ)
    → sum_where p (insert k w m) + (if p k then or_zero (lookup k m) else 0)
      ≡ sum_where p m + (if p k then w else 0)
unfolding insert lookup
sum_where-insert p k w [] = ground arith
sum_where-insert p k w ((j, n) ∷ m) = elim (Bool-cases (str_eq j k)) [
  | inl same ↦ ground (arith, ap p ((str_eq_iff j k).0 same))
  | inr other ↦ ground (arith, sum_where-insert p k w m)
]

sum_where-add_at :
    (p : Str → Bool) (k : Str) (n : ℕ) (m : Map ℕ)
    → sum_where p (add_at k n m) ≡ sum_where p m + (if p k then n else 0)
unfolding add_at
sum_where-add_at p k n m = ground (arith, sum_where-insert p k (or_zero (lookup k m) + n) m)

pub record Request : Type 0 where
  pub method : Str
  pub route : Str
  pub status : ℕ
  pub elapsed : Option ℤ

abbrev pub record_all : Metrics → List Request → Metrics
record_all m [] = m
record_all m (q ∷ qs) = record_all (record_request q.method q.route q.status q.elapsed m) qs

pub record IsBalanced (m : Metrics) : Type 0 where
  pub methods : sum_all m.by_method ≡ m.total_requests
  pub routes : sum_all m.by_route ≡ m.total_requests
  pub statuses : sum_all m.by_status ≡ m.total_requests
  pub errors : sum_where is_error_key m.by_status ≡ m.total_errors
  pub latency : sum_all m.by_route_latency ≡ m.total_latency

record_request-IsBalanced :
    (method route : Str) (status : ℕ) (elapsed : Option ℤ) (m : Metrics)
    → IsBalanced m
    → IsBalanced (record_request method route status elapsed m)
unfolding record_request
record_request-IsBalanced method route status elapsed m s =
    let p = normalize_path route in
    record {
      methods =
          omega (arith, sum_where-add_at (λ k. true) (method_of method) 1 m.by_method, s.methods);
      routes = omega (arith, sum_where-add_at (λ k. true) p 1 m.by_route, s.routes);
      statuses =
          omega (arith, sum_where-add_at (λ k. true) (status_key status) 1 m.by_status, s.statuses);
      errors =
          ground (arith, sum_where-add_at is_error_key (status_key status) 1 m.by_status, s.errors);
      latency = omega (
        arith,
        sum_where-add_at (λ k. true) p (duration_of elapsed) m.by_route_latency,
        s.latency,
      );
    }

record_all-from : (m : Metrics) (qs : List Request) → IsBalanced m → IsBalanced (record_all m qs)
record_all-from m [] s = s
record_all-from m (q ∷ qs) s =
    record_all-from (record_request q.method q.route q.status q.elapsed m) qs
      (record_request-IsBalanced q.method q.route q.status q.elapsed m s)

-- After any requests the counters agree: the requests by method, by route and by status each add up to
-- the total, the requests with a status of 400 or more to the errors, and the latency by route to the
-- total latency.
pub record_all-IsBalanced : (qs : List Request) → IsBalanced (record_all new_metrics qs)
unfolding new_metrics
record_all-IsBalanced qs =
    record_all-from new_metrics qs
      (record { methods = refl; routes = refl; statuses = refl; errors = refl; latency = refl })
