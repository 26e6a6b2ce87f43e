-- ===== src/Proxy/Breaker/Opening.antt =====
-- When the circuit breaker of pkg/runtime/proxy.go opens, stays open and closes.
use fgoths_framework.Prelude.{
  ℕ, suc, ◌+◌, ◌≤◌, ◌<◌, ◌≡◌, ◌↔◌, refl, sym, subst, ◌∙◌, false, List, [], ◌∷◌, arith, length,
}
use fgoths_framework.Proxy.Breaker.{
  CircuitBreaker, allow, record_failure, renew_window, count_failure, trip,
}

-- Failures reported at the given times, in order.
abbrev pub fail_all : CircuitBreaker → List ℕ → CircuitBreaker
fail_all cb [] = cb
fail_all cb (t ∷ ts) = fail_all (record_failure t cb) ts

-- The times do not fall, begin at `from`, and lie in the window that began at `start`.
abbrev pub InWindow : ℕ → ℕ → ℕ → List ℕ → Type 0
InWindow start window from [] = Unit
InWindow start window from (t ∷ ts) = (from ≤ t) × (t ≤ start + window) × InWindow start window t ts

abbrev pub last_time : ℕ → List ℕ → ℕ
last_time t [] = t
last_time t (u ∷ ts) = last_time u ts

-- A breaker whose window began at `start`, with `n` failures, the last of them at `t`.
pub record IsCounting (cb : CircuitBreaker) (start n t : ℕ) : Type 0 where
  pub started : 0 < start
  pub begins : cb.reset_at ≡ start
  pub counted : cb.failures ≡ n
  pub order : start ≤ t
  pub threshold_pos : 0 < cb.threshold
  pub open_pos : 0 < cb.open_for
  pub closed : cb.failures < cb.threshold → cb.open_until ≡ 0
  pub opened : cb.threshold ≤ cb.failures → cb.open_until ≡ t + cb.open_for

renew_window_same :
    (cb : CircuitBreaker) (start u : ℕ)
    → 0 < start
    → cb.reset_at ≡ start
    → u ≤ start + cb.window
    → renew_window u cb ≡ cb
unfolding renew_window
renew_window_same cb start u p e w = ground arith

count_failure-IsCounting :
    (cb : CircuitBreaker) (start n t u : ℕ)
    → IsCounting cb start n t
    → t ≤ u
    → IsCounting (trip u (count_failure u cb)) start (suc n) u
unfolding count_failure trip
count_failure-IsCounting cb start n t u k h = ground arith

record_failure-IsCounting :
    (cb : CircuitBreaker) (start n t u : ℕ)
    → IsCounting cb start n t
    → t ≤ u
    → u ≤ start + cb.window
    → IsCounting (record_failure u cb) start (suc n) u
unfolding record_failure
record_failure-IsCounting cb start n t u k h w =
    rw (renew_window_same cb start u k.started k.begins w, record_failure)
      (count_failure-IsCounting cb start n t u k h)

record_failure_config :
    (cb : CircuitBreaker) (u : ℕ)
    → ((record_failure u cb).threshold ≡ cb.threshold)
      × ((record_failure u cb).window ≡ cb.window)
      × ((record_failure u cb).open_for ≡ cb.open_for)
unfolding record_failure renew_window count_failure trip
record_failure_config cb u = (ground arith, ground arith, ground arith)

fail_all-IsCounting :
    (cb : CircuitBreaker) (start n t : ℕ) (ts : List ℕ)
    → IsCounting cb start n t
    → InWindow start cb.window t ts
    → IsCounting (fail_all cb ts) start (n + length ts) (last_time t ts)
      × ((fail_all cb ts).threshold ≡ cb.threshold)
      × ((fail_all cb ts).open_for ≡ cb.open_for)
fail_all-IsCounting cb start n t [] k w =
    let same : n ≡ n + 0 = omega arith in (subst (λ m. IsCounting cb start m t) same k, refl, refl)
fail_all-IsCounting cb start n t (u ∷ ts) k (h, w, ws) =
    let (same_threshold, same_window, same_open) = record_failure_config cb u in
    let (k', threshold, opening) =
      fail_all-IsCounting (record_failure u cb) start (suc n) u ts
        (record_failure-IsCounting cb start n t u k h w)
        (subst (λ v. InWindow start v u ts) (sym same_window) ws) in
    let count : suc n + length ts ≡ n + suc (length ts) = omega arith in
    (
      subst (λ m. IsCounting (fail_all (record_failure u cb) ts) start m (last_time u ts)) count k',
      threshold ∙ same_threshold,
      opening ∙ same_open,
    )

first_failure-IsCounting :
    (cb : CircuitBreaker) (t : ℕ)
    → 0 < t
    → 0 < cb.threshold
    → 0 < cb.open_for
    → cb.reset_at ≡ 0
    → cb.open_until ≡ 0
    → IsCounting (record_failure t cb) t 1 t
unfolding record_failure renew_window count_failure trip
first_failure-IsCounting cb t p q r e o = ground arith

allow_when_counting :
    (cb : CircuitBreaker) (start n t now : ℕ)
    → IsCounting cb start n t
    → ((allow now cb).1 ≡ false) ↔ ((cb.threshold ≤ n) × (now < t + cb.open_for))
unfolding allow
allow_when_counting cb start n t now k = ground arith

-- After failures at rising times within one window, and nothing else, a breaker that starts closed
-- refuses a request exactly if the failures reached the threshold and `open_for` has not yet passed
-- since the last of them.
pub fail_all-allow :
    (cb : CircuitBreaker) (t now : ℕ) (ts : List ℕ)
    → 0 < t
    → 0 < cb.threshold
    → 0 < cb.open_for
    → cb.reset_at ≡ 0
    → cb.open_until ≡ 0
    → InWindow t cb.window t ts
    → ((allow now (fail_all cb (t ∷ ts))).1 ≡ false)
      ↔ ((cb.threshold ≤ suc (length ts)) × (now < last_time t ts + cb.open_for))
fail_all-allow cb t now ts p q r e o w =
    let (same_threshold, same_window, same_open) = record_failure_config cb t in
    let (k, threshold, opening) =
      fail_all-IsCounting (record_failure t cb) t 1 t ts (first_failure-IsCounting cb t p q r e o)
        (subst (λ v. InWindow t v t ts) (sym same_window) w) in
    let last = allow_when_counting _ t (1 + length ts) (last_time t ts) now k in
    let count : 1 + length ts ≡ suc (length ts) = omega arith in
    let thresholds = threshold ∙ same_threshold in
    let opens = opening ∙ same_open in
    (
      λ refused. let (a, b) = last.0 refused in (omega arith, omega arith),
      λ (a, b). last.1 (omega arith, omega arith),
    )
