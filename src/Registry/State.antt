-- ===== src/Registry/State.antt =====
-- The configurations that RouteRegistry stores, and the registry. Upstream, Rollout, Region, Tenant
-- and policy types of pkg/runtime/{config_registry,upstream,rollout,region,tenant_registry}.go, and
-- SLOPolicy of pkg/runtime/governance.go.
use fgoths_framework.Prelude.{Bool, List, [], Option, if◌then◌else◌}
use fgoths_framework.Prelude.Int.{ℤ, pos, leb_ℤ}
use fgoths_framework.Prelude.Float.{Float, float, float_le}
use fgoths_framework.Prelude.Text.{Str}
use fgoths_framework.Prelude.Maps.{Map}

pub record SloPolicy : Type 0 where
  pub error_rate_threshold : Float
  pub latency_threshold_ms : ℤ
  pub burn_rate_limit : Float

unfoldable pub new_slo_policy : Float → ℤ → Float → SloPolicy
new_slo_policy error_rate latency burn_rate = record {
  error_rate_threshold = if float_le error_rate (float 0 1) then float 5 100 else error_rate;
  latency_threshold_ms = if leb_ℤ latency (pos 0) then pos 250 else latency;
  burn_rate_limit = if float_le burn_rate (float 0 1) then float 2 100 else burn_rate;
}

pub record RouteConfig : Type 0 where
  pub name : Str
  pub method : Str
  pub path : Str
  pub target : Str
  pub upstream : Str
  pub weight : ℤ
  pub tenant : Str
  pub enabled : Bool
  pub headers : Map Str

pub record RoutePolicy : Type 0 where
  pub name : Str
  pub environment : Str
  pub service : Str
  pub allowed_tenants : List Str
  pub allowed_regions : List Str
  pub require_signed_artifacts : Bool
  pub require_audit : Bool
  pub slo : Option SloPolicy

pub record UpstreamConfig : Type 0 where
  pub name : Str
  pub target : Str
  pub fallback : Str
  pub services : List Str
  pub weight : ℤ
  pub enabled : Bool
  pub healthy : Bool

-- The strategy is a string in Go; every string but these four is `other`.
pub data RolloutStrategy : Type 0 where
  unset canary blue_green progressive rollback : RolloutStrategy
  other : Str → RolloutStrategy

pub record RolloutConfig : Type 0 where
  pub name : Str
  pub route : Str
  pub strategy : RolloutStrategy
  pub target : Str
  pub canary_weight : ℤ
  pub max_weight : ℤ
  pub step : ℤ
  pub enabled : Bool
  pub is_progressive : Bool
  pub is_rollback : Bool
  pub error_threshold : Float

pub record RegionConfig : Type 0 where
  pub name : Str
  pub region : Str
  pub target : Str
  pub weight : ℤ
  pub enabled : Bool
  pub primary : Bool
  pub healthy : Bool

pub record TenantConfig : Type 0 where
  pub name : Str
  pub allowed_routes : List Str
  pub allowed_regions : List Str
  pub enabled : Bool

pub record RouteRegistry : Type 0 where
  pub routes : Map RouteConfig
  pub rollouts : Map RolloutConfig
  pub regions : Map RegionConfig
  pub tenants : Map TenantConfig
  pub policies : Map RoutePolicy
  pub upstreams : Map UpstreamConfig

unfoldable pub new_route_registry : RouteRegistry
new_route_registry = record {
  routes = [];
  rollouts = [];
  regions = [];
  tenants = [];
  policies = [];
  upstreams = [];
}

-- The errors of the registry's operations, one for each message.
pub data RegistryError : Type 0 where
  name_required path_required target_required unknown_upstream : RegistryError
  disabled_needs_weight disabled already_exists : RegistryError
  service_required invalid_url own_fallback : RegistryError
  region_required route_required : RegistryError
  rollback_rejected negative_weight weight_above_max zero_weight negative_threshold : RegistryError
  not_found tenant_required tenant_denied region_denied needs_slo : RegistryError
