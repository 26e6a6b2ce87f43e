-- ===== src/Proxy/Health.antt =====
-- WithHealthCheck and refreshHealthStatus of pkg/runtime/proxy.go. The probe over the network is an
-- argument: the status of its response, or `none` for an error.
use fgoths_framework.Prelude.{
  ℕ, ◌+◌, ◌-◌, ◌*◌, ◌≤◌, ◌<◌, ◌≡◌, refl, ap, ◌∙◌, Bool, true, false, not, ◌&&◌, ◌==◌, ltb, leb,
  Option, none, some, if◌then◌else◌, arith, [], is_empty,
}
use fgoths_framework.Prelude.Int.{ℤ}
use fgoths_framework.Prelude.Text.{Str, codes}
use fgoths_framework.Router.Path.{normalize_path}
use fgoths_framework.Proxy.Breaker.{second, positive_or}

pub record HealthCheck : Type 0 where
  pub path : Str
  pub interval : ℕ
  pub timeout : ℕ
  pub healthy : Bool
  pub last_check : ℕ

abbrev pub no_check : HealthCheck
no_check = record { path = []; interval = 0; timeout = 0; healthy = false; last_check = 0 }

abbrev pub is_healthy : Option ℕ → Bool
is_healthy none = false
is_healthy (some status) = leb 200 status && ltb status 500

-- The last result is used while it is younger than the interval.
unfoldable pub is_fresh : ℕ → HealthCheck → Bool
is_fresh now h =
    ltb 0 h.interval && (not (h.last_check == 0) && ltb (now - h.last_check) h.interval)

default_timeout : HealthCheck → HealthCheck
default_timeout h = if h.timeout == 0 then record h { timeout = 2 * second } else h

-- `has_target` is false if the proxy has no target URL, and `probe` is the status of the upstream's
-- answer, if the upstream is asked and answers. The Boolean is the result of the method.
unfoldable pub refresh : Bool → ℕ → Option ℕ → HealthCheck → HealthCheck × Bool
unfolding is_fresh default_timeout
refresh has_target now probe h =
    let up = has_target && is_healthy probe in
    if is_empty h.path
    then (h, true)
    else if is_fresh now h
    then (h, h.healthy)
    else (record (default_timeout h) { healthy = up; last_check = now }, up)

unfoldable pub with_health_check : Bool → ℕ → Option ℕ → Str → ℤ → HealthCheck → HealthCheck
unfolding refresh default_timeout
with_health_check has_target now probe path interval h =
    let p = normalize_path (if is_empty path then codes "/health" else path) in
    (refresh has_target now probe
      (record (default_timeout h) { path = p; interval = positive_or interval second })).0

abbrev checked_at : HealthCheck → ℕ → Bool → HealthCheck
checked_at h t up = record (default_timeout h) { healthy = up; last_check = t }

checked_same :
    (h : HealthCheck) (t : ℕ) (up : Bool)
    → ((checked_at h t up).path ≡ h.path) × ((checked_at h t up).interval ≡ h.interval)
unfolding default_timeout
checked_same h t up = (ground arith, ground arith)

checked_fresh :
    (h : HealthCheck) (t now : ℕ) (up : Bool)
    → 0 < t
    → t ≤ now
    → now < t + h.interval
    → is_fresh now (checked_at h t up) ≡ true
unfolding is_fresh
checked_fresh h t now up p q young = ground (arith, (checked_same h t up).1)

checked_stale :
    (h : HealthCheck) (t now : ℕ) (up : Bool)
    → t + h.interval ≤ now
    → is_fresh now (checked_at h t up) ≡ false
unfolding is_fresh
checked_stale h t now up old = ground (arith, (checked_same h t up).1)

module _ (h : HealthCheck) (has_target : Bool) (now : ℕ) (probe : Option ℕ)
    (e : is_empty h.path ≡ false) where
  refresh_asks :
      is_fresh now h ≡ false
      → refresh has_target now probe h ≡ (
        record (default_timeout h) { healthy = has_target && is_healthy probe; last_check = now },
        has_target && is_healthy probe,
      )
  unfolding refresh
  refresh_asks f = rw (e, refresh) (rw f refl)

  refresh_keeps : is_fresh now h ≡ true → refresh has_target now probe h ≡ (h, h.healthy)
  unfolding refresh
  refresh_keeps f = rw (e, refresh) (rw f refl)

-- Within the interval after a check at time `t` the answer is that check's, whatever the upstream
-- does meanwhile, and nothing changes; at the end of the interval the upstream is asked again.
refresh_interval :
    (h : HealthCheck) (has_target : Bool) (t now : ℕ) (probe later : Option ℕ)
    → is_empty h.path ≡ false
    → is_fresh t h ≡ false
    → 0 < t
    → t ≤ now
    → ((refresh has_target t probe h).1 ≡ (has_target && is_healthy probe))
      × (now < t + h.interval
          → refresh has_target now later (refresh has_target t probe h).0
            ≡ refresh has_target t probe h)
      × (t + h.interval ≤ now
          → (refresh has_target now later (refresh has_target t probe h).0).1
            ≡ (has_target && is_healthy later))
refresh_interval h has_target t now probe later e f p q =
    let asked = refresh_asks h has_target t probe e f in
    let checked : HealthCheck = checked_at h t (has_target && is_healthy probe) in
    let same = checked_same h t (has_target && is_healthy probe) in
    let e' : is_empty checked.path ≡ false = ap is_empty same.0 ∙ e in
    (
      ap (λ (x : HealthCheck × Bool). x.1) asked,
      (λ young. rw asked (
          refresh_keeps checked has_target now later e'
            (checked_fresh h t now (has_target && is_healthy probe) p q young))),
      (λ old. rw asked (
          ap (λ (x : HealthCheck × Bool). x.1)
            (refresh_asks checked has_target now later e'
              (checked_stale h t now (has_target && is_healthy probe) old)))),
    )
