-- ===== src/Proxy/Limiter.antt =====
-- proxyRateLimiter of pkg/runtime/proxy.go. Tokens are counted in billionths, so that
-- `elapsed.Seconds() * limit` is the whole number `elapsed * limit`; Go rounds it to a float64.
use fgoths_framework.Prelude.{
  ℕ, zero, suc, ◌+◌, ◌-◌, ◌*◌, ◌≤◌, ◌<◌, ◌≡◌, refl, ap, ◌∙◌, Bool, true, false, ◌==◌, ltb, leb,
  List, [], ◌∷◌, Option, none, some, if◌then◌else◌, arith,
}
use fgoths_framework.Prelude.Int.{ℤ, pos, pos_part, leb_ℤ}

pub record RateLimiter : Type 0 where
  pub limit : ℕ
  pub burst : ℕ
  pub tokens : ℕ
  pub last : ℕ

-- One token.
abbrev pub unit : ℕ
unit = 1_000_000_000

unfoldable pub new_rate_limiter : ℕ → ℤ → ℤ → Option RateLimiter
new_rate_limiter now per_second burst =
    let size = if leb_ℤ burst (pos 0) then pos_part per_second else pos_part burst in
    if leb_ℤ per_second (pos 0)
    then none
    else some (record {
      limit = pos_part per_second;
      burst = size * unit;
      tokens = size * unit;
      last = now;
    })

unfoldable pub start_clock : ℕ → RateLimiter → RateLimiter
start_clock now rl = if rl.last == 0 then record rl { last = now } else rl

unfoldable pub refill : ℕ → RateLimiter → RateLimiter
refill now rl =
    let filled = rl.tokens + (now - rl.last) * rl.limit in
    record rl { last = now; tokens = if ltb rl.burst filled then rl.burst else filled }

unfoldable pub spend : RateLimiter → RateLimiter × Bool
spend rl =
    if leb unit rl.tokens then (record rl { tokens = rl.tokens - unit }, true) else (rl, false)

unfoldable pub allow : ℕ → RateLimiter → RateLimiter × Bool
unfolding start_clock refill spend
allow now rl = spend (refill now (start_clock now rl))

-- The limiter and the requests let through, after requests at the given times.
unfoldable pub serve_all : RateLimiter → List ℕ → RateLimiter × ℕ
serve_all rl [] = (rl, 0)
serve_all rl (t ∷ ts) =
    let (rl', ok) = allow t rl in
    let (rl'', n) = serve_all rl' ts in (rl'', if ok then suc n else n)

abbrev pub Rising : ℕ → List ℕ → Type 0
Rising t [] = Unit
Rising t (u ∷ us) = (t ≤ u) × Rising u us

abbrev pub last_time : ℕ → List ℕ → ℕ
last_time t [] = t
last_time t (u ∷ us) = last_time u us

last_time-ge : (t : ℕ) (us : List ℕ) → Rising t us → t ≤ last_time t us
last_time-ge t [] r = omega arith
last_time-ge t (u ∷ us) (h, r) = omega (arith, last_time-ge u us r)

abbrev cost : Bool → ℕ
cost true = unit
cost false = 0

-- One request: what is spent and what is left is at most what was there and what has flowed in.
allow_balance :
    (rl : RateLimiter) (t : ℕ)
    → 0 < rl.last
    → rl.last ≤ t
    → ((allow t rl).0.tokens + cost (allow t rl).1 ≤ rl.tokens + (t - rl.last) * rl.limit)
      × ((allow t rl).0.last ≡ t)
      × ((allow t rl).0.limit ≡ rl.limit)
      × ((allow t rl).0.burst ≡ rl.burst)
      × ((allow t rl).0.tokens ≤ rl.burst)
unfolding allow start_clock refill spend
allow_balance rl t p h = (ground arith, ground arith, ground arith, ground arith, ground arith)

split_time : (a b c rate : ℕ) → a ≤ b → b ≤ c → (c - a) * rate ≡ (b - a) * rate + (c - b) * rate
split_time a b c rate h k =
    let e : c - a ≡ (b - a) + (c - b) = omega arith in ap (λ (x : ℕ). x * rate) e ∙ omega arith

counted_cost : (ok : Bool) (n : ℕ) → (if ok then suc n else n) * unit ≡ n * unit + cost ok
counted_cost true n = omega arith
counted_cost false n = omega arith

serve_all-balance :
    (rl : RateLimiter) (start rate : ℕ) (ts : List ℕ)
    → rl.last ≡ start
    → rl.limit ≡ rate
    → 0 < start
    → Rising start ts
    → (serve_all rl ts).1 * unit + (serve_all rl ts).0.tokens
      ≤ rl.tokens + (last_time start ts - start) * rate
unfolding serve_all
serve_all-balance rl start rate [] e l p r = omega arith
serve_all-balance rl start rate (t ∷ ts) e l p (h, r) =
    let (paid, last', limit', burst', cap) = allow_balance rl t (omega arith) (omega arith) in
    let ih = serve_all-balance (allow t rl).0 t rate ts last' (limit' ∙ l) (omega arith) r in
    let flow : (t - rl.last) * rl.limit ≡ (t - start) * rate = cc in
    omega (
      arith,
      split_time start t (last_time t ts) rate h (last_time-ge t ts r),
      counted_cost (allow t rl).1 (serve_all (allow t rl).0 ts).1,
    )

-- Over any rising sequence of requests, the requests let through and the tokens left are paid for by
-- the tokens at the start and the flow of the elapsed time.
pub serve_all-bound :
    (rl : RateLimiter) (ts : List ℕ)
    → 0 < rl.last
    → Rising rl.last ts
    → (serve_all rl ts).1 * unit + (serve_all rl ts).0.tokens
      ≤ rl.tokens + (last_time rl.last ts - rl.last) * rl.limit
serve_all-bound rl ts p r = serve_all-balance rl rl.last rl.limit ts refl refl p r

-- `n` requests at one time.
abbrev pub repeat : ℕ → ℕ → List ℕ
repeat zero t = []
repeat (suc n) t = t ∷ repeat n t

allow_granted :
    (rl : RateLimiter) (t : ℕ)
    → unit ≤ rl.tokens
    → rl.tokens ≤ rl.burst
    → ((allow t rl).1 ≡ true)
      × (rl.tokens ≤ (allow t rl).0.tokens + unit)
      × ((allow t rl).0.tokens ≤ (allow t rl).0.burst)
unfolding allow start_clock refill spend
allow_granted rl t h k = (ground arith, ground arith, ground arith)

serve_all_granted :
    (rl : RateLimiter) (t n : ℕ)
    → n * unit ≤ rl.tokens
    → rl.tokens ≤ rl.burst
    → (serve_all rl (repeat n t)).1 ≡ n
unfolding serve_all
serve_all_granted rl t zero h k = refl
serve_all_granted rl t (suc n) h k =
    let (granted, left, cap) = allow_granted rl t (omega arith) k in
    let ih = serve_all_granted (allow t rl).0 t n (omega arith) cap in rw granted (ap suc ih)

-- A new limiter lets a burst of up to `burst` requests through at once, where a burst of 0 or less
-- stands for the rate.
pub new_rate_limiter_burst :
    (now t n : ℕ) (per_second burst : ℤ) (rl : RateLimiter)
    → new_rate_limiter now per_second burst ≡ some rl
    → n ≤ (if leb_ℤ burst (pos 0) then pos_part per_second else pos_part burst)
    → (serve_all rl (repeat n t)).1 ≡ n
unfolding new_rate_limiter
new_rate_limiter_burst now t n per_second burst rl e h =
    let size = if leb_ℤ burst (pos 0) then pos_part per_second else pos_part burst in
    let tokens : rl.tokens ≡ size * unit = ground arith in
    let same : rl.burst ≡ size * unit = ground arith in
    serve_all_granted rl t n (omega arith) (omega arith)
