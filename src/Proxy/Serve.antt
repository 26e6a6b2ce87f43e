-- ===== src/Proxy/Serve.antt =====
-- Proxy.ServeHTTP of pkg/runtime/proxy.go, with the ModifyResponse and ErrorHandler that NewProxy
-- installs. The failover proxy is one that NewProxy made: it has no limiter, breaker or check. The
-- calls that the library's ReverseProxy makes on the writer it is given are part of the outside of a
-- request, as is its panic with http.ErrAbortHandler when it cannot copy a body. A switch of protocols
-- is left out.
use fgoths_framework.Prelude.{
  ℕ, ◌≡◌, Bool, true, false, ◌&&◌, Option, none, some, if◌then◌else◌, arith, List, [], ◌∷◌, ◌++◌,
  reverse,
}
use fgoths_framework.Prelude.Text.{Str, codes}
use fgoths_framework.Proxy.Breaker
use fgoths_framework.Proxy.Breaker.{CircuitBreaker, record_success, record_failure}
use fgoths_framework.Proxy.Limiter
use fgoths_framework.Proxy.Limiter.{RateLimiter}
use fgoths_framework.Proxy.Retry.{Outcome, response, failed, body_error, is_failure}
use fgoths_framework.Proxy.Failover.{WriterCall, header, body, calls, new_writer, hands_over}
use fgoths_framework.Proxy.Health.{HealthCheck, refresh}

pub record Proxy : Type 0 where
  pub limiter : Option RateLimiter
  pub breaker : Option CircuitBreaker
  pub health : HealthCheck
  pub has_failover : Bool

-- What the client gets: a status of this proxy's own, what the primary attempt sent it, with or without
-- a panic at its end, or what that sent it and after that the failover's reply.
pub data Served : Type 0 where
  rate_limited circuit_open unavailable : Served
  relayed aborted : (sent : List WriterCall) → Served
  failed_over : (sent : List WriterCall) → Served

-- The outside of one request: its time, the probe and the primary's outcome if they are asked, the
-- calls that ReverseProxy makes on the writer, of informational headers, header, body and flushes,
-- before it calls the ErrorHandler if there is an error, whether it panics after these calls, the text
-- of the error, and the time of the outcome.
pub record Request : Type 0 where
  pub now : ℕ
  pub probe : Option ℕ
  pub outcome : Outcome
  pub attempt : List WriterCall
  pub aborts : Bool
  pub error_text : Str
  pub later : ℕ

unfoldable pub limiter_allow : ℕ → Option RateLimiter → Option RateLimiter × Bool
limiter_allow now none = (none, true)
limiter_allow now (some rl) = let (rl', ok) = Limiter.allow now rl in (some rl', ok)

unfoldable pub breaker_allow : ℕ → Option CircuitBreaker → Option CircuitBreaker × Bool
breaker_allow now none = (none, true)
breaker_allow now (some cb) = let (cb', ok) = Breaker.allow now cb in (some cb', ok)

-- http.Error of the ErrorHandler: a status and a text, with a newline.
abbrev pub proxy_error : (error_text : Str) → List WriterCall
proxy_error error_text =
    header 502 ∷ body (codes "proxy error: " ++ (error_text ++ (b'\n' ∷ []))) ∷ []

-- All calls of the primary attempt on the writer.
abbrev pub primary_calls : Request → List WriterCall
primary_calls q = q.attempt ++ elim q.outcome [
  | response status ↦ []
  | failed ↦ proxy_error q.error_text
  | body_error ↦ proxy_error q.error_text
]

-- What ServeHTTP does after the primary attempt.
unfoldable pub settle : (has_failover aborts : Bool) → List WriterCall → Served
settle has_failover aborts cs =
    let fw = calls new_writer cs in
    let sent = if has_failover then reverse fw.log else cs in
    if aborts
    then aborted sent
    else if has_failover && hands_over fw
    then failed_over sent
    else relayed sent

unfoldable pub record_outcome : ℕ → Outcome → Option CircuitBreaker → Option CircuitBreaker
record_outcome t o none = none
record_outcome t (response status) (some cb) =
    some (if is_failure status then record_failure t cb else record_success t cb)
record_outcome t failed (some cb) = some (record_failure t cb)
record_outcome t body_error (some cb) = some (record_failure t cb)

-- The primary attempt, through the failover writer if there is a failover, whose log is newest first.
unfoldable pub forward : Request → Proxy → Proxy × Served
unfolding record_outcome settle
forward q p = (
  record p { breaker = record_outcome q.later q.outcome p.breaker },
  settle p.has_failover q.aborts (primary_calls q),
)

unfoldable pub check_health : Request → Proxy → Proxy × Served
unfolding forward
check_health q p =
    let (h, up) = refresh true q.now q.probe p.health in
    let p' : Proxy = record p { health = h } in
    if up then forward q p' else (p', if p.has_failover then failed_over [] else unavailable)

unfoldable pub pass_breaker : Request → Proxy → Proxy × Served
unfolding check_health breaker_allow
pass_breaker q p =
    let (cb, ok) = breaker_allow q.now p.breaker in
    let p' : Proxy = record p { breaker = cb } in
    if ok then check_health q p' else (p', circuit_open)

unfoldable pub serve_http : Request → Proxy → Proxy × Served
unfolding pass_breaker limiter_allow
serve_http q p =
    let (rl, ok) = limiter_allow q.now p.limiter in
    let p' : Proxy = record p { limiter = rl } in
    if ok then pass_breaker q p' else (p', rate_limited)

-- The gates in their order.
abbrev pub within_rate : Request → Proxy → Bool
within_rate q p = (limiter_allow q.now p.limiter).1

abbrev pub is_closed : Request → Proxy → Bool
is_closed q p = (breaker_allow q.now p.breaker).1

abbrev pub is_up : Request → Proxy → Bool
is_up q p = (refresh true q.now q.probe p.health).1

abbrev pub is_failed_over : Served → Bool
is_failed_over (failed_over sent) = true
is_failed_over _ = false

-- The breaker hears of the outcome exactly if the primary was asked: past the limiter, the breaker
-- and the health check. Otherwise it is as its own test left it.
pub serve_http_records :
    (q : Request) (p : Proxy)
    → within_rate q p ≡ true
    → (serve_http q p).0.breaker ≡ (
        if is_closed q p && is_up q p
        then record_outcome q.later q.outcome (breaker_allow q.now p.breaker).0
        else (breaker_allow q.now p.breaker).0)
unfolding serve_http
serve_http_records q p h = ground arith
