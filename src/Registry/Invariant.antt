-- ===== src/Registry/Invariant.antt =====
-- What every sequence of registrations keeps true of a RouteRegistry (pkg/runtime/config_registry.go,
-- upstream.go, rollout.go, region.go, tenant_registry.go).
use fgoths_framework.Prelude.{
  ◌≡◌, inl, inr, refl, sym, ap, subst, Bool, false, List, [], ◌∷◌, none, some, arith, is_some,
  Option-cases,
}
use fgoths_framework.Prelude.Text.{Str, str_eq_iff, trim_space}
use fgoths_framework.Prelude.Maps.{lookup, lookup-insert}
use fgoths_framework.Registry.State.{
  RouteConfig, UpstreamConfig, RegionConfig, TenantConfig, RoutePolicy, RolloutConfig,
  RouteRegistry, new_route_registry,
}
use fgoths_framework.Registry.Routes.{
  route_error, clean_route, register, register_policy, policy_error,
}
use fgoths_framework.Registry.Upstreams.{upstream_error, clean_upstream, register_upstream}
use fgoths_framework.Registry.Rollouts.{Result-cases, validate, register_rollout}
use fgoths_framework.Registry.Regions.{region_error, clean_region, register_region}
use fgoths_framework.Registry.Tenants.{tenant_error, register_tenant}
use fgoths_framework.Registry.Shape.{
  IsRoute, IsUpstream, IsRegion, IsTenant, Stored, IsSound, Stored-insert, clean_route-IsRoute,
  clean_upstream-IsUpstream, clean_region-IsRegion, trim_name-IsTenant,
}

-- The calls that change a registry.
pub data Change : Type 0 where
  route : RouteConfig → Change
  policy : RoutePolicy → Change
  upstream : UpstreamConfig → Change
  region : RegionConfig → Change
  tenant : TenantConfig → Change
  rollout : RolloutConfig → Change

module _ (parses : Str → Bool) where
  abbrev pub change : RouteRegistry → Change → RouteRegistry
  change r (route cfg) = (register cfg r).0
  change r (policy cfg) = (register_policy cfg r).0
  change r (upstream cfg) = (register_upstream parses cfg r).0
  change r (region cfg) = (register_region cfg r).0
  change r (tenant cfg) = (register_tenant cfg r).0
  change r (rollout cfg) = (register_rollout cfg r).0

  abbrev pub changes : RouteRegistry → List Change → RouteRegistry
  changes r [] = r
  changes r (c ∷ cs) = changes (change r c) cs

  -- An upstream that is there stays there, with its configuration.
  register_upstream-keeps :
      (cfg : UpstreamConfig) (r : RouteRegistry) (k : Str) (u : UpstreamConfig)
      → lookup k r.upstreams ≡ some u
      → lookup k (register_upstream parses cfg r).0.upstreams ≡ some u
  unfolding register_upstream
  register_upstream-keeps cfg r k u h = elim (Option-cases (upstream_error parses r cfg)) [
    | inr (x, e) ↦ rw (e, register_upstream) h
    | inl e ↦
        rw (e, register_upstream)
          (ground (
            arith,
            lookup-insert (trim_space cfg.name) k (clean_upstream cfg) r.upstreams,
            str_eq_iff (trim_space cfg.name) k,
            fresh cfg r e,
          ))
  ]
    where
      fresh :
          (cfg : UpstreamConfig) (r : RouteRegistry)
          → upstream_error parses r cfg ≡ none
          → is_some (lookup (trim_space cfg.name) r.upstreams) ≡ false
      fresh cfg r e = unfold upstream_error in ground arith

  aimed_after :
      (cfg : UpstreamConfig) (r : RouteRegistry) (k : Str) (c : RouteConfig)
      → IsRoute r.upstreams k c
      → IsRoute (register_upstream parses cfg r).0.upstreams k c
  aimed_after cfg r k c v = record {
    named = v.named;
    active = v.active;
    weighted = v.weighted;
    aimed = elim v.aimed [
      | inl no_upstream ↦ inl no_upstream
      | inr known ↦ elim (Option-cases (lookup c.upstream r.upstreams)) [
        | inl gone ↦ inr (ground arith)
        | inr (u, there) ↦ inr (ap is_some (register_upstream-keeps cfg r c.upstream u there))
      ]
    ];
  }

  register_upstream-upstreams :
      (cfg : UpstreamConfig) (r : RouteRegistry)
      → Stored IsUpstream r.upstreams
      → Stored IsUpstream (register_upstream parses cfg r).0.upstreams
  unfolding register_upstream
  register_upstream-upstreams cfg r s = elim (Option-cases (upstream_error parses r cfg)) [
    | inr (x, e) ↦ rw (e, register_upstream) s
    | inl e ↦
        rw (e, register_upstream)
          (Stored-insert IsUpstream (trim_space cfg.name) (clean_upstream cfg) r.upstreams
            (clean_upstream-IsUpstream parses r cfg e) s)
  ]

  register_upstream-rest :
      (cfg : UpstreamConfig) (r : RouteRegistry)
      → ((register_upstream parses cfg r).0.routes ≡ r.routes)
        × ((register_upstream parses cfg r).0.regions ≡ r.regions)
        × ((register_upstream parses cfg r).0.tenants ≡ r.tenants)
  unfolding register_upstream
  register_upstream-rest cfg r = elim (Option-cases (upstream_error parses r cfg)) [
    | inr (x, e) ↦ rw (e, register_upstream) (refl, refl, refl)
    | inl e ↦ rw (e, register_upstream) (refl, refl, refl)
  ]

  register_upstream-IsSound :
      (cfg : UpstreamConfig) (r : RouteRegistry)
      → IsSound r
      → IsSound (register_upstream parses cfg r).0
  register_upstream-IsSound cfg r s =
      let (routes, regions, tenants) = register_upstream-rest cfg r in
      record {
        routes = λ k c e.
            aimed_after cfg r k c (s.routes k c (subst (λ m. lookup k m ≡ some c) routes e));
        upstreams = register_upstream-upstreams cfg r s.upstreams;
        regions = subst (Stored IsRegion) (sym regions) s.regions;
        tenants = subst (Stored IsTenant) (sym tenants) s.tenants;
      }

  register-IsSound :
      (cfg : RouteConfig) (r : RouteRegistry) → IsSound r → IsSound (register cfg r).0
  unfolding register
  register-IsSound cfg r s = elim (Option-cases (route_error r cfg)) [
    | inr (x, e) ↦ rw (e, register) s
    | inl e ↦
        rw (e, register)
          (record {
            routes =
                Stored-insert (IsRoute r.upstreams) (trim_space cfg.name) (clean_route cfg) r.routes
                  (clean_route-IsRoute r cfg e) s.routes;
            upstreams = s.upstreams;
            regions = s.regions;
            tenants = s.tenants;
          })
  ]

  register_policy-IsSound :
      (cfg : RoutePolicy) (r : RouteRegistry) → IsSound r → IsSound (register_policy cfg r).0
  unfolding register_policy
  register_policy-IsSound cfg r s = elim (Option-cases (policy_error r cfg)) [
    | inr (x, e) ↦ rw (e, register_policy) s
    | inl e ↦
        rw (e, register_policy)
          (record {
            routes = s.routes;
            upstreams = s.upstreams;
            regions = s.regions;
            tenants = s.tenants;
          })
  ]

  register_region-IsSound :
      (cfg : RegionConfig) (r : RouteRegistry) → IsSound r → IsSound (register_region cfg r).0
  unfolding register_region
  register_region-IsSound cfg r s = elim (Option-cases (region_error r cfg)) [
    | inr (x, e) ↦ rw (e, register_region) s
    | inl e ↦
        rw (e, register_region)
          (record {
            routes = s.routes;
            upstreams = s.upstreams;
            regions =
                Stored-insert IsRegion (trim_space cfg.name) (clean_region cfg) r.regions
                  (clean_region-IsRegion r cfg e) s.regions;
            tenants = s.tenants;
          })
  ]

  register_tenant-IsSound :
      (cfg : TenantConfig) (r : RouteRegistry) → IsSound r → IsSound (register_tenant cfg r).0
  unfolding register_tenant
  register_tenant-IsSound cfg r s = elim (Option-cases (tenant_error r cfg)) [
    | inr (x, e) ↦ rw (e, register_tenant) s
    | inl e ↦
        rw (e, register_tenant)
          (record {
            routes = s.routes;
            upstreams = s.upstreams;
            regions = s.regions;
            tenants =
                Stored-insert IsTenant (trim_space cfg.name)
                  (record cfg { name = trim_space cfg.name }) r.tenants (trim_name-IsTenant r cfg e)
                  s.tenants;
          })
  ]

  register_rollout-IsSound :
      (cfg : RolloutConfig) (r : RouteRegistry) → IsSound r → IsSound (register_rollout cfg r).0
  unfolding register_rollout
  register_rollout-IsSound cfg r s = elim (Result-cases (validate cfg)) [
    | inl (x, e) ↦ rw (e, register_rollout) s
    | inr (c, e) ↦
        rw (e, register_rollout)
          (record {
            routes = s.routes;
            upstreams = s.upstreams;
            regions = s.regions;
            tenants = s.tenants;
          })
  ]

  change-IsSound : (r : RouteRegistry) (c : Change) → IsSound r → IsSound (change r c)
  change-IsSound r (route cfg) s = register-IsSound cfg r s
  change-IsSound r (policy cfg) s = register_policy-IsSound cfg r s
  change-IsSound r (upstream cfg) s = register_upstream-IsSound cfg r s
  change-IsSound r (region cfg) s = register_region-IsSound cfg r s
  change-IsSound r (tenant cfg) s = register_tenant-IsSound cfg r s
  change-IsSound r (rollout cfg) s = register_rollout-IsSound cfg r s

  changes-IsSound : (r : RouteRegistry) (cs : List Change) → IsSound r → IsSound (changes r cs)
  changes-IsSound r [] s = s
  changes-IsSound r (c ∷ cs) s = changes-IsSound (change r c) cs (change-IsSound r c s)

  -- After any registrations, in any order and whether they succeed or not, every stored route is
  -- active, has a weight of at least 1, and refers to no upstream or to a registered one; upstreams
  -- and regions have a weight of at least 1, no upstream is its own fallback, regions and tenants are
  -- active, and each is stored under its name.
  pub new_route_registry-IsSound : (cs : List Change) → IsSound (changes new_route_registry cs)
  unfolding new_route_registry lookup
  new_route_registry-IsSound cs =
      changes-IsSound
        (record {
          routes = [];
          rollouts = [];
          regions = [];
          tenants = [];
          policies = [];
          upstreams = [];
        })
        cs
        (record {
          routes = λ k v e. absurd (ground arith);
          upstreams = λ k v e. absurd (ground arith);
          regions = λ k v e. absurd (ground arith);
          tenants = λ k v e. absurd (ground arith);
        })
