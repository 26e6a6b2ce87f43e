-- ===== src/Tenancy/Quota.antt =====
-- The tenant quota against a log of all admitted requests (pkg/runtime/tenant.go).
use fgoths_framework.Prelude.{
  ℕ, ◌≤◌, ◌<◌, ◌≡◌, refl, Bool, true, false, List, [], ◌∷◌, ◌++◌, arith, is_empty, ◌||◌,
  if◌then◌else◌, ap, ◌∙◌,
}
use fgoths_framework.Prelude.Int.{ℤ, pos, leb_ℤ}
use fgoths_framework.Prelude.Text.{Str, codes}
use fgoths_framework.Prelude.Maps.{lookup}
use fgoths_framework.Tenancy.Middleware.{
  Verdict, rejected, passed, scoped, tenant_of, QuotaStore, new_quota_store, count_request,
  tenant_quota,
}
use fgoths_framework.Tenancy.Agreement.{
  Log, Agrees, Agrees-later, has_room, log_after, count_request-Agrees,
}

pub record Arrival : Type 0 where
  pub context : Str
  pub header : Str
  pub at : ℕ

abbrev pub InOrder : ℕ → List Arrival → Type 0
InOrder now [] = Unit
InOrder now (a ∷ rest) = (now ≤ a.at) × InOrder a.at rest

-- The requests that the middleware lets through with a tenant, after those of the log.
abbrev pub log_verdict : ℕ → Log → Verdict → Log
log_verdict now log (scoped k) = log ++ (k, now) ∷ []
log_verdict now log (rejected status message) = log
log_verdict now log passed = log

abbrev pub serve_all : (limit window : ℤ) → QuotaStore → Log → List Arrival → QuotaStore × Log
serve_all limit window s log [] = (s, log)
serve_all limit window s log (a ∷ rest) =
    let (s', v) = tenant_quota limit window a.context a.header a.at s in
    serve_all limit window s' (log_verdict a.at log v) rest

-- The same with the log alone, from which nothing is ever deleted.
abbrev pub log_step : (limit window : ℕ) → Log → Arrival → Log
log_step limit window log a =
    let k = tenant_of a.context a.header in
    if is_empty k then log else log_after (has_room limit window k a.at log) k a.at log

abbrev pub log_all : (limit window : ℕ) → Log → List Arrival → Log
log_all limit window log [] = log
log_all limit window log (a ∷ rest) = log_all limit window (log_step limit window log a) rest

tenant_quota-Agrees :
    (limit window now : ℕ) (s : QuotaStore) (log : Log) (a : Arrival)
    → 0 < limit
    → 0 < window
    → now ≤ a.at
    → Agrees window now s.by_user log
    → let after = tenant_quota (pos limit) (pos window) a.context a.header a.at s in
      (log_verdict a.at log after.1 ≡ log_step limit window log a)
      × Agrees window a.at after.0.by_user (log_step limit window log a)
unfolding tenant_quota
tenant_quota-Agrees limit window now s log a l w t h =
    let k = tenant_of a.context a.header in
    let h' = Agrees-later window now a.at s.by_user log t h in
    let c = count_request-Agrees limit window a.at k s log h' in
    result (leb_ℤ (pos limit) (pos 0) || leb_ℤ (pos window) (pos 0)) (is_empty k)
      (has_room limit window k a.at log) (ground arith) h' (count_request limit window k a.at s).0
      (count_request limit window k a.at s).1 c.0 c.1
  where
    result :
        (off blank room : Bool)
        → off ≡ false
        → Agrees window a.at s.by_user log
        → (s' : QuotaStore) (admitted : Bool) → admitted ≡ room
        → let k = tenant_of a.context a.header in
          let log' = log_after room k a.at log in
          Agrees window a.at s'.by_user log'
          → let after : QuotaStore × Verdict =
              if off
              then (s, passed)
              else if blank
              then (s, rejected 400 (codes "tenant required"))
              else if admitted
              then (s', scoped k)
              else (s', rejected 429 (codes "tenant quota exceeded")) in
            (log_verdict a.at log after.1 ≡ (if blank then log else log'))
            × Agrees window a.at after.0.by_user (if blank then log else log')
    result true blank room e h s' admitted f g = cc
    result false true room e h s' admitted f g = (refl, h)
    result false false true e h s' true f g = (refl, g)
    result false false false e h s' false f g = (refl, g)
    result false false true e h s' false f g = cc
    result false false false e h s' true f g = cc

new_quota_store-Agrees : (window now : ℕ) → Agrees window now [] []
unfolding lookup
new_quota_store-Agrees window now = record {
  keys = tt;
  rising = λ k. tt;
  past = λ k. tt;
  same = λ k later e. refl;
}

serve_all-from :
    (limit window now : ℕ) (s : QuotaStore) (log : Log) (arrivals : List Arrival)
    → 0 < limit
    → 0 < window
    → InOrder now arrivals
    → Agrees window now s.by_user log
    → (serve_all (pos limit) (pos window) s log arrivals).1 ≡ log_all limit window log arrivals
serve_all-from limit window now s log [] l w o h = refl
serve_all-from limit window now s log (a ∷ rest) l w o h =
    let after = tenant_quota (pos limit) (pos window) a.context a.header a.at s in
    let c = tenant_quota-Agrees limit window now s log a l w o.0 h in
    ap (λ x. (serve_all (pos limit) (pos window) after.0 x rest).1) c.0
    ∙ serve_all-from limit window a.at after.0 (log_step limit window log a) rest l w o.1 c.1

-- The quota with its store, which forgets instants and deletes tenants, admits of requests in the order
-- of time, for a positive limit and window, exactly those that the log of all admitted requests
-- admits: with a tenant that has in the log fewer than `limit` requests within the window.
pub serve_all-log_all :
    (limit window : ℕ) (arrivals : List Arrival)
    → 0 < limit
    → 0 < window
    → InOrder 0 arrivals
    → (serve_all (pos limit) (pos window) new_quota_store [] arrivals).1
      ≡ log_all limit window [] arrivals
serve_all-log_all limit window arrivals l w o =
    serve_all-from limit window 0 new_quota_store [] arrivals l w o
      (new_quota_store-Agrees window 0)
