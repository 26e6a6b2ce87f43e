-- ===== src/Tenancy/Waiting.antt =====
-- A tenant that waits is admitted again (pkg/runtime/tenant.go).
use fgoths_framework.Prelude.{
  ℕ, ◌+◌, ◌≤◌, ◌<◌, ◌≡◌, refl, false, List, [], ◌∷◌, ◌++◌, arith, All, is_empty, ap, sym, subst,
  ◌∙◌,
}
use fgoths_framework.Prelude.Int.{pos}
use fgoths_framework.Tenancy.Middleware.{tenant_of, new_quota_store, recent}
use fgoths_framework.Tenancy.Agreement.{Log, times_of}
use fgoths_framework.Tenancy.Quota.{
  Arrival, InOrder, serve_all, log_step, log_all, serve_all-log_all,
}

log_all-append :
    (limit window : ℕ) (log : Log) (arrivals : List Arrival) (a : Arrival)
    → log_all limit window log (arrivals ++ a ∷ [])
      ≡ log_step limit window (log_all limit window log arrivals) a
log_all-append limit window log [] a = refl
log_all-append limit window log (b ∷ rest) a =
    log_all-append limit window (log_step limit window log b) rest a

InOrder-append :
    (now : ℕ) (arrivals : List Arrival) (a : Arrival)
    → InOrder now (arrivals ++ a ∷ [])
    → InOrder now arrivals
InOrder-append now [] a o = tt
InOrder-append now (b ∷ rest) a o = (o.0, InOrder-append b.at rest a o.1)

recent-All :
    (window now : ℕ) (ts : List ℕ) → All (λ t. t + window ≤ now) ts → recent window now ts ≡ []
recent-All window now [] h = refl
recent-All window now (t ∷ ts) h = ground (arith, h.0, recent-All window now ts h.1)

log_step-admits :
    (limit window : ℕ) (log : Log) (a : Arrival)
    → 0 < limit
    → is_empty (tenant_of a.context a.header) ≡ false
    → All (λ t. t + window ≤ a.at) (times_of (tenant_of a.context a.header) log)
    → log_step limit window log a ≡ log ++ (tenant_of a.context a.header, a.at) ∷ []
log_step-admits limit window log a l e h =
    let k = tenant_of a.context a.header in
    ground (arith, recent-All window a.at (times_of k log) h)

-- After any requests in the order of time, for a positive limit and window, a request with a tenant
-- whose admitted requests all lie a window back or more is admitted, also if other requests of the
-- tenant were refused meanwhile: it is the next entry of the log.
pub serve_all-waits :
    (limit window : ℕ) (arrivals : List Arrival) (a : Arrival)
    → 0 < limit
    → 0 < window
    → InOrder 0 (arrivals ++ a ∷ [])
    → let k = tenant_of a.context a.header in
      let log = (serve_all (pos limit) (pos window) new_quota_store [] arrivals).1 in
      is_empty k ≡ false
      → All (λ t. t + window ≤ a.at) (times_of k log)
      → (serve_all (pos limit) (pos window) new_quota_store [] (arrivals ++ a ∷ [])).1
        ≡ log ++ (k, a.at) ∷ []
serve_all-waits limit window arrivals a l w o e h =
    let k = tenant_of a.context a.header in
    let before = serve_all-log_all limit window arrivals l w (InOrder-append 0 arrivals a o) in
    serve_all-log_all limit window (arrivals ++ a ∷ []) l w o
    ∙ log_all-append limit window [] arrivals a
    ∙ log_step-admits limit window (log_all limit window [] arrivals) a l e
        (subst (λ log. All (λ t. t + window ≤ a.at) (times_of k log)) before h)
    ∙ ap (λ log. log ++ (k, a.at) ∷ []) (sym before)
