-- ===== src/Registry/Shape.antt =====
-- What a well-formed configuration of RouteRegistry is, and that registration stores one
-- (pkg/runtime/config_registry.go, upstream.go, region.go, tenant_registry.go).
use fgoths_framework.Prelude.{
  ◌≡◌, ◌≢◌, ◌⊎◌, inl, inr, refl, subst, Bool, true, [], none, some, arith, is_some, Bool-cases,
}
use fgoths_framework.Prelude.Int.{pos, ◌≤ℤ◌}
use fgoths_framework.Prelude.Text.{Str, str_eq, str_eq_iff, trim_space}
use fgoths_framework.Prelude.Maps.{Map, lookup, insert, lookup-insert}
use fgoths_framework.Registry.State.{
  RouteConfig, UpstreamConfig, RegionConfig, TenantConfig, RouteRegistry,
}
use fgoths_framework.Registry.Routes.{route_error, clean_route}
use fgoths_framework.Registry.Upstreams.{upstream_error, clean_upstream}
use fgoths_framework.Registry.Regions.{region_error, clean_region}
use fgoths_framework.Registry.Tenants.{tenant_error}

-- A stored route is active, carries weight, and names an upstream that is registered, or a target.
pub record IsRoute (upstreams : Map UpstreamConfig) (key : Str) (c : RouteConfig) : Type 0 where
  pub named : c.name ≡ key
  pub active : c.enabled ≡ true
  pub weighted : pos 1 ≤ℤ c.weight
  pub aimed : (c.upstream ≡ []) ⊎ (is_some (lookup c.upstream upstreams) ≡ true)

pub record IsUpstream (key : Str) (u : UpstreamConfig) : Type 0 where
  pub named : u.name ≡ key
  pub weighted : pos 1 ≤ℤ u.weight
  pub no_loop : u.fallback ≢ u.name

pub record IsRegion (key : Str) (c : RegionConfig) : Type 0 where
  pub named : c.name ≡ key
  pub active : c.enabled ≡ true
  pub weighted : pos 1 ≤ℤ c.weight

pub record IsTenant (key : Str) (c : TenantConfig) : Type 0 where
  pub named : c.name ≡ key
  pub active : c.enabled ≡ true

abbrev pub Stored : {V : Type 0} → (Str → V → Type 0) → Map V → Type 0
Stored {V} P m = (key : Str) (v : V) → lookup key m ≡ some v → P key v

pub record IsSound (r : RouteRegistry) : Type 0 where
  pub routes : Stored (IsRoute r.upstreams) r.routes
  pub upstreams : Stored IsUpstream r.upstreams
  pub regions : Stored IsRegion r.regions
  pub tenants : Stored IsTenant r.tenants

pub Stored-insert :
    {V : Type 0} (P : Str → V → Type 0) (key : Str) (v : V) (m : Map V)
    → P key v
    → Stored P m
    → Stored P (insert key v m)
Stored-insert P key v m here there k w e = elim (Bool-cases (str_eq key k)) [
  | inl same ↦
      let at : v ≡ w = ground (arith, lookup-insert key k v m) in
      subst (P k) at (subst (λ j. P j v) ((str_eq_iff key k).0 same) here)
  | inr other ↦ there k w (ground (arith, lookup-insert key k v m))
]

pub clean_route-IsRoute :
    (r : RouteRegistry) (cfg : RouteConfig)
    → route_error r cfg ≡ none
    → IsRoute r.upstreams (trim_space cfg.name) (clean_route cfg)
unfolding route_error clean_route
clean_route-IsRoute r cfg e = record {
  named = refl;
  active = ground arith;
  weighted = ground arith;
  aimed = ground arith;
}

pub clean_upstream-IsUpstream :
    (parses : Str → Bool) (r : RouteRegistry) (cfg : UpstreamConfig)
    → upstream_error parses r cfg ≡ none
    → IsUpstream (trim_space cfg.name) (clean_upstream cfg)
unfolding upstream_error clean_upstream
clean_upstream-IsUpstream parses r cfg e = record {
  named = refl;
  weighted = ground arith;
  no_loop = λ same. ground (arith, str_eq_iff (trim_space cfg.fallback) (trim_space cfg.name));
}

pub clean_region-IsRegion :
    (r : RouteRegistry) (cfg : RegionConfig)
    → region_error r cfg ≡ none
    → IsRegion (trim_space cfg.name) (clean_region cfg)
unfolding region_error clean_region
clean_region-IsRegion r cfg e = record {
  named = refl;
  active = ground arith;
  weighted = ground arith;
}

pub trim_name-IsTenant :
    (r : RouteRegistry) (cfg : TenantConfig)
    → tenant_error r cfg ≡ none
    → IsTenant (trim_space cfg.name) (record cfg { name = trim_space cfg.name })
unfolding tenant_error
trim_name-IsTenant r cfg e = record { named = refl; active = ground arith }
