-- ===== src/Tenancy/Tests.antt =====
-- Runs of pkg/runtime/tenant.go, and the theorems at concrete inputs.
use fgoths_framework.Prelude.{◌≤◌, ◌≡◌, refl, List, [], ◌∷◌, ◌++◌, arith}
use fgoths_framework.Prelude.Int.{pos}
use fgoths_framework.Prelude.Text.{codes, text_functions}
use fgoths_framework.Prelude.Maps.{map_functions}
use fgoths_framework.Tenancy.Middleware.{
  rejected, require_tenant, require_tenant_match, tenant_of, new_quota_store, count_request,
  tenant_quota,
}
use fgoths_framework.Tenancy.Quota.{Arrival, serve_all, log_all, serve_all-log_all}
use fgoths_framework.Tenancy.Bounds.{requests_in, serve_all-requests_in}
use fgoths_framework.Tenancy.Waiting.{serve_all-waits}

tenancy : Unit {0}
unfolding text_functions map_functions require_tenant require_tenant_match tenant_of count_request
    tenant_quota
tenancy = tt

abbrev arrivals : List Arrival
arrivals =
    record { context = []; header = codes " acme "; at = 10 }
    ∷ record { context = codes "acme"; header = codes "other"; at = 12 }
    ∷ record { context = []; header = codes "acme"; at = 15 }
    ∷ []

-- The third request within 10 is refused.
third_refused :
    (serve_all (pos 2) (pos 10) new_quota_store [] arrivals).1
    ≡ (codes "acme", 10) ∷ (codes "acme", 12) ∷ []
unfolding tenancy
third_refused = refl

other_tenant :
    require_tenant_match (codes "acme") [] (codes " other")
    ≡ rejected 403 (codes "tenant access denied")
unfolding tenancy
other_tenant = refl

serve_all-log_all_example :
    (serve_all (pos 2) (pos 10) new_quota_store [] arrivals).1 ≡ log_all 2 10 [] arrivals
serve_all-log_all_example =
    serve_all-log_all 2 10 arrivals (omega arith) (omega arith)
      (omega arith, (omega arith, (omega arith, tt)))

serve_all-requests_in_example :
    requests_in 10 15 (codes "acme") (serve_all (pos 2) (pos 10) new_quota_store [] arrivals).1 ≤ 2
serve_all-requests_in_example =
    serve_all-requests_in 2 10 arrivals (codes "acme") 15 (omega arith) (omega arith)
      (omega arith, (omega arith, (omega arith, tt)))

abbrev waiting : Arrival
waiting = record { context = []; header = codes "acme"; at = 22 }

serve_all-waits_example :
    (serve_all (pos 2) (pos 10) new_quota_store [] (arrivals ++ waiting ∷ [])).1
    ≡ (serve_all (pos 2) (pos 10) new_quota_store [] arrivals).1 ++ (codes "acme", 22) ∷ []
unfolding tenancy
serve_all-waits_example =
    serve_all-waits 2 10 arrivals waiting (omega arith) (omega arith)
      (omega arith, (omega arith, (omega arith, (omega arith, tt)))) refl
      (omega arith, (omega arith, tt))
