-- ===== src/Registry/Tests.antt =====
-- Runs of RouteRegistry (pkg/runtime/config_registry.go and the files beside it), and the theorems at
-- concrete inputs.
use mathlib.Core.List.{Memᴰ}
use fgoths_framework.Prelude.{
  ℕ, ◌≡◌, ◌↔◌, refl, Bool, true, false, List, [], ◌∷◌, ◌++◌, some, arith, reverse, is_some,
}
use fgoths_framework.Prelude.Int.{ℤ, pos, negsuc, ◌≤ℤ◌, ◌+ℤ◌, ◌-ℤ◌, max_int64, wrap_int64}
use fgoths_framework.Prelude.Float.{float}
use fgoths_framework.Prelude.Text.{Str, codes, text_functions, trim_space}
use fgoths_framework.Prelude.Maps.{Map, lookup, map_functions}
use fgoths_framework.Router.Path.{normalize_path}
use fgoths_framework.Router.Dispatch.{Visits-reverse}
use fgoths_framework.Registry.State.{
  RouteConfig, UpstreamConfig, RegionConfig, RolloutConfig, RouteRegistry, canary,
  new_route_registry,
}
use fgoths_framework.Registry.Routes.{register, get}
use fgoths_framework.Registry.Upstreams.{
  register_upstream, total_weight, pool_for, in_pool, pick_weighted_upstream, select_upstream,
  pick_upstream, resolve_route_target,
}
use fgoths_framework.Registry.Rollouts.{
  RolloutMetrics, evaluate, register_rollout, register_trimmed, get_rollout,
}
use fgoths_framework.Registry.Regions.{
  RegionMetrics, failover, choose, evaluate_region, select_region, register_region,
}
use fgoths_framework.Registry.Tenants.{register_tenant, can_access_route}
use fgoths_framework.Registry.Invariant.{
  Change, route, upstream, region, changes, new_route_registry-IsSound,
}
use fgoths_framework.Registry.Shape.{IsSound}
use fgoths_framework.Registry.Selection.{
  pick_upstream_answers, IsTarget, resolve_route_target-IsTarget,
}
use fgoths_framework.Registry.Weights.{weight_sum, Share, pick_weighted_upstream_iff}
use fgoths_framework.Registry.Failover.{IsRegionDecision, evaluate_region-IsRegionDecision}
use fgoths_framework.Registry.State.{TenantConfig, RoutePolicy, new_slo_policy}
use fgoths_framework.Registry.Invariant.{tenant, policy}
use fgoths_framework.Registry.Routes.{register_policy, validate_policy}
use fgoths_framework.Registry.Tenants.{register_tenant, can_access_route, can_access_region}
use fgoths_framework.Prelude.{false, none}

registry : Unit {0}
unfolding text_functions map_functions normalize_path register get register_upstream total_weight
    pool_for in_pool pick_weighted_upstream select_upstream pick_upstream resolve_route_target
    evaluate register_rollout register_trimmed get_rollout evaluate_region select_region
    register_region register_tenant can_access_route can_access_region register_policy
    validate_policy new_slo_policy new_route_registry
registry = tt

abbrev accepts_all : Str → Bool
accepts_all s = true

abbrev backend : Str → Str → ℕ → UpstreamConfig
backend name fallback weight = record {
  name = name;
  target = codes "http://" ++ name;
  fallback = fallback;
  services = [];
  weight = pos weight;
  enabled = true;
  healthy = true;
}

abbrev api : RouteConfig
api = record {
  name = codes " api ";
  method = codes "get";
  path = codes "users/";
  target = [];
  upstream = codes "main ";
  weight = pos 0;
  tenant = [];
  enabled = true;
  headers = [];
}

abbrev place : Str → Bool → RegionConfig
place name primary = record {
  name = name;
  region = name;
  target = codes "t-" ++ name;
  weight = pos 0;
  enabled = true;
  primary = primary;
  healthy = true;
}

abbrev set_up : List Change
set_up =
    upstream (record (backend (codes "main") (codes "spare") 3) { healthy = false })
    ∷ upstream (backend (codes "spare") [] 2)
    ∷ route api
    ∷ region (place (codes "eu") true)
    ∷ region (place (codes "us") false)
    ∷ []

abbrev r : RouteRegistry
r = changes accepts_all new_route_registry set_up

abbrev eu : RegionConfig
eu = record (place (codes "eu") true) { weight = pos 100 }

abbrev spare : UpstreamConfig
spare = backend (codes "spare") [] 2

abbrev in_order : {V : Type 0} → Map V → List (Str × V)
in_order m = m

abbrev one : ℤ → ℤ
one n = pos 1

stored_route :
    get (codes "api") r
    ≡ some (record api {
      name = codes "api";
      method = codes "GET";
      path = codes "/users";
      upstream = codes "main";
      weight = pos 100;
    })
unfolding registry
stored_route = refl

new_route_registry-IsSound_example : IsSound (changes accepts_all new_route_registry set_up)
new_route_registry-IsSound_example = new_route_registry-IsSound accepts_all set_up

-- Three places; the middle one has the numbers 3 and 4.
abbrev three_places : List UpstreamConfig
three_places = backend (codes "a") [] 3 ∷ spare ∷ backend (codes "b") [] 1 ∷ []

pick_weighted_upstream_iff_example :
    (pick_weighted_upstream three_places (pos 4) ≡ some spare) ↔ Share three_places (pos 4) spare
pick_weighted_upstream_iff_example =
    pick_weighted_upstream_iff three_places (pos 4) spare
      (omega arith, (omega arith, (omega arith, tt))) (omega arith)

picked_fourth : pick_weighted_upstream three_places (pos 4) ≡ some spare
unfolding registry ◌-ℤ◌
picked_fourth = refl

-- Two upstreams of the greatest weight: the total wraps around.
abbrev heaviest : UpstreamConfig
heaviest = record spare { weight = max_int64 }

total_wraps : total_weight (heaviest ∷ heaviest ∷ []) ≡ negsuc 1
unfolding registry wrap_int64 ◌+ℤ◌
total_wraps = refl

abbrev spare_registry : RouteRegistry
spare_registry = changes accepts_all new_route_registry (upstream spare ∷ [])

pick_upstream_answers_example :
    (is_some (pick_upstream reverse one (codes "cart") spare_registry) ≡ true)
    × (pos 1 ≤ℤ total_weight (pool_for reverse one (trim_space (codes "cart")) spare_registry))
unfolding registry weight_sum ◌+ℤ◌
pick_upstream_answers_example =
    pick_upstream_answers reverse (λ m. Visits-reverse m) one (codes "cart") spare_registry
      (codes "spare") spare (refl, tt)
      (new_route_registry-IsSound accepts_all (upstream spare ∷ [])).upstreams (Memᴰ.head refl) refl
      (omega arith)

resolve_route_target-IsTarget_example :
    (found : RouteConfig) × (lookup (trim_space (codes "api")) r.routes ≡ some found)
    × IsTarget reverse (λ m. Visits-reverse m) one r found (codes "http://spare")
unfolding registry
resolve_route_target-IsTarget_example =
    resolve_route_target-IsTarget reverse (λ m. Visits-reverse m) one (codes "api") r
      (codes "http://spare") refl

abbrev canary_release : RolloutConfig
canary_release = record {
  name = codes " canary";
  route = codes "api";
  strategy = canary;
  target = codes "v2";
  canary_weight = pos 20;
  max_weight = pos 0;
  step = pos 0;
  enabled = true;
  is_progressive = true;
  is_rollback = false;
  error_threshold = float 5 1;
}

abbrev metrics : RolloutMetrics
metrics = record { requests = pos 7; error_rate = float 1 100; failed = pos 0; succeeded = pos 7 }

abbrev bad : RegionMetrics
bad = record { latency_ms = pos 900; error_rate = float 0 1 }

fails_over :
    evaluate_region in_order (codes "eu") bad r
    ≡ some (choose (record (place (codes "us") false) { weight = pos 100 }) true failover)
unfolding registry
fails_over = refl

evaluate_region-IsRegionDecision_example :
    (primary : RegionConfig) × (lookup (trim_space (codes "eu")) r.regions ≡ some primary)
    × (primary.enabled ≡ true)
    × IsRegionDecision r
        (codes "eu")
        bad
        primary
        (choose (record (place (codes "us") false) { weight = pos 100 }) true failover)
unfolding registry
evaluate_region-IsRegionDecision_example =
    evaluate_region-IsRegionDecision reverse (λ m. Visits-reverse m) (codes "eu") bad r
      (choose (record (place (codes "us") false) { weight = pos 100 }) true failover) refl

abbrev shop : TenantConfig
shop = record {
  name = codes "shop";
  allowed_routes = codes "api " ∷ [];
  allowed_regions = [];
  enabled = true;
}

abbrev cart_policy : RoutePolicy
cart_policy = record {
  name = codes " cart";
  environment = [];
  service = codes "cart";
  allowed_tenants = codes "shop" ∷ [];
  allowed_regions = [];
  require_signed_artifacts = true;
  require_audit = true;
  slo = none;
}

abbrev tenants : RouteRegistry
tenants = changes accepts_all new_route_registry (tenant shop ∷ policy cart_policy ∷ [])

may_use : can_access_route (codes " shop") (codes "api") tenants ≡ true
unfolding registry
may_use = refl

empty_list_denies : can_access_region (codes "shop") (codes "eu") tenants ≡ false
unfolding registry
empty_list_denies = refl
