-- ===== src/Proxy/Tests.antt =====
-- Runs of pkg/runtime/proxy.go, and the theorems at concrete inputs.
use fgoths_framework.Prelude.{
  ℕ, ◌<◌, ◌≤◌, ◌+◌, ◌-◌, ◌*◌, ◌≡◌, ◌↔◌, refl, true, false, List, [], ◌∷◌, none, some, arith, zero,
  suc,
}
use fgoths_framework.Prelude.Text.{codes, text_functions}
use fgoths_framework.Router.Path.{normalize_path}
use fgoths_framework.Proxy.Breaker
use fgoths_framework.Proxy.Breaker.{CircuitBreaker, record_failure, new_circuit_breaker}
use fgoths_framework.Proxy.Breaker.Opening.{fail_all, fail_all-allow}
use fgoths_framework.Proxy.Limiter
use fgoths_framework.Proxy.Limiter.{
  RateLimiter, unit, new_rate_limiter, serve_all, serve_all-bound, new_rate_limiter_burst, repeat,
}
use fgoths_framework.Proxy.Retry.{
  Outcome, response, failed, round_trip, StopsAt, round_trip-StopsAt,
}
use fgoths_framework.Proxy.Failover.{WriterCall, header, body, flush, new_writer, call}
use fgoths_framework.Proxy.Join.{
  join_proxy_path, stored_prefix, strip, rewrite, or_root, add_target_prefix, add_base,
}
use fgoths_framework.Proxy.Health.{HealthCheck, is_fresh, refresh}
use fgoths_framework.Proxy.Serve
use fgoths_framework.Proxy.Serve.{
  Proxy, Request, relayed, failed_over, rate_limited, record_outcome, breaker_allow, settle,
  serve_http_records,
}

proxy : Unit {0}
unfolding text_functions normalize_path record_failure new_circuit_breaker new_rate_limiter
    serve_all round_trip call new_writer join_proxy_path stored_prefix strip rewrite or_root
    add_target_prefix add_base is_fresh refresh Serve.serve_http Breaker.allow Limiter.allow
    record_outcome settle
proxy = tt

abbrev breaker : CircuitBreaker
breaker = record {
  threshold = 2;
  window = 100;
  open_for = 50;
  failures = 0;
  reset_at = 0;
  open_until = 0;
  last_failure = 0;
}

abbrev tripped : CircuitBreaker
tripped = fail_all breaker (10 ∷ 20 ∷ [])

fail_all-allow_example :
    ((Breaker.allow 60 (fail_all breaker (10 ∷ 20 ∷ []))).1 ≡ false) ↔ ((2 ≤ 2) × (60 < 20 + 50))
fail_all-allow_example =
    fail_all-allow breaker 10 60 (20 ∷ []) (omega arith) (omega arith) (omega arith) refl refl
      (omega arith, omega arith, tt)

refused : (Breaker.allow 60 tripped).1 ≡ false
unfolding proxy
refused = refl

abbrev limiter : RateLimiter
limiter = record { limit = 2; burst = 2 * unit; tokens = unit; last = 5 }

serve_all-bound_example :
    (serve_all limiter (5 ∷ 6 ∷ [])).1 * unit + (serve_all limiter (5 ∷ 6 ∷ [])).0.tokens
    ≤ unit + (6 - 5) * 2
unfolding proxy
serve_all-bound_example =
    serve_all-bound limiter (5 ∷ 6 ∷ []) (omega arith) (omega arith, (omega arith, tt))

abbrev new_limiter : RateLimiter
new_limiter = record { limit = 3; burst = 3 * unit; tokens = 3 * unit; last = 7 }

abbrev attempts : ℕ → Outcome
attempts zero = failed
attempts (suc zero) = response 503
attempts (suc (suc k)) = response 200

round_trip-StopsAt_example : StopsAt attempts 0 5 (round_trip attempts 10 false 5)
round_trip-StopsAt_example = round_trip-StopsAt attempts 10 5

third_attempt : (round_trip attempts 10 false 5).attempts ≡ 3
unfolding proxy
third_attempt = refl

abbrev failing : List WriterCall
failing = header 503 ∷ body (1 ∷ []) ∷ []

abbrev health : HealthCheck
health = record {
  path = codes "/health";
  interval = 30;
  timeout = 2;
  healthy = false;
  last_check = 0;
}

abbrev front : Proxy
front = record { limiter = none; breaker = some breaker; health = health; has_failover = true }

-- The primary answers with one status and a body.
abbrev request : ℕ → Request
request status = record {
  now = 10;
  probe = some 200;
  outcome = response status;
  attempt = header status ∷ body (1 ∷ []) ∷ [];
  aborts = false;
  error_text = [];
  later = 12;
}

-- A 103 that is passed on before the failing status commits the primary's response.
early_hints :
    (Serve.serve_http
      (record (request 503) { attempt = header 103 ∷ header 503 ∷ body (1 ∷ []) ∷ [] })
      front).1
    ≡ relayed (header 103 ∷ body (1 ∷ []) ∷ [])
unfolding proxy
early_hints = refl

-- A flush between the failing status and the failover has reached the client before the failover.
flushed_first :
    (Serve.serve_http
      (record (request 503) { attempt = header 503 ∷ body (1 ∷ []) ∷ flush ∷ [] })
      front).1
    ≡ failed_over (flush ∷ [])
unfolding proxy
flushed_first = refl
