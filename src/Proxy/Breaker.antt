-- ===== src/Proxy/Breaker.antt =====
-- proxyCircuitBreaker of pkg/runtime/proxy.go. `none` is the nil breaker, which allows everything.
pub mod Opening
use fgoths_framework.Prelude.{
  ℕ, suc, ◌+◌, ◌-◌, ◌*◌, ◌≡◌, Bool, true, false, not, ◌==◌, ◌||◌, ltb, leb, Option, none, some,
  if◌then◌else◌,
}
use fgoths_framework.Prelude.Int.{ℤ, pos, negsuc, pos_part, leb_ℤ}

pub record CircuitBreaker : Type 0 where
  pub threshold : ℕ
  pub window : ℕ
  pub open_for : ℕ
  pub failures : ℕ
  pub reset_at : ℕ
  pub open_until : ℕ
  pub last_failure : ℕ

abbrev pub second : ℕ
second = 1_000_000_000

-- A duration of 0 or less is replaced.
abbrev pub positive_or : ℤ → ℕ → ℕ
positive_or d default = if leb_ℤ d (pos 0) then default else pos_part d

unfoldable pub new_circuit_breaker : ℤ → ℤ → ℤ → Option CircuitBreaker
new_circuit_breaker threshold window open_for =
    if leb_ℤ threshold (pos 0)
    then none
    else some (record {
      threshold = pos_part threshold;
      window = positive_or window (60 * second);
      open_for = positive_or open_for (15 * second);
      failures = 0;
      reset_at = 0;
      open_until = 0;
      last_failure = 0;
    })

-- The counting window starts anew if there is none or it has run out.
unfoldable pub renew_window : ℕ → CircuitBreaker → CircuitBreaker
renew_window now cb =
    if cb.reset_at == 0 || ltb cb.window (now - cb.reset_at)
    then record cb { failures = 0; reset_at = now }
    else cb

unfoldable pub allow : ℕ → CircuitBreaker → CircuitBreaker × Bool
unfolding renew_window
allow now cb =
    if cb.open_until == 0
    then (renew_window now cb, true)
    else if ltb now cb.open_until
    then (cb, false)
    else (renew_window now (record cb { open_until = 0 }), true)

unfoldable pub record_success : ℕ → CircuitBreaker → CircuitBreaker
record_success now cb = record cb { failures = 0; reset_at = now; open_until = 0 }

unfoldable pub count_failure : ℕ → CircuitBreaker → CircuitBreaker
count_failure now cb = record cb { failures = suc cb.failures; last_failure = now }

unfoldable pub trip : ℕ → CircuitBreaker → CircuitBreaker
trip now cb =
    if leb cb.threshold cb.failures then record cb { open_until = now + cb.open_for } else cb

unfoldable pub record_failure : ℕ → CircuitBreaker → CircuitBreaker
unfolding renew_window count_failure trip
record_failure now cb = trip now (count_failure now (renew_window now cb))
