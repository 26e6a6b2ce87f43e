-- ===== src/Registry/Lookups.antt =====
-- What stays in the registry, and what its Get methods find (pkg/runtime/config_registry.go,
-- upstream.go, rollout.go, region.go, tenant_registry.go).
use fgoths_framework.Prelude.{
  ◌≡◌, ◌≢◌, inl, inr, refl, sym, ap, ◌∙◌, Bool, false, List, [], ◌∷◌, none, some, arith, is_some,
  Bool-cases, Option-cases,
}
use fgoths_framework.Prelude.Text.{Str, str_eq_iff, trim_space, trim_space_idem}
use fgoths_framework.Prelude.Maps.{Map, lookup, insert, lookup-insert}
use fgoths_framework.Registry.State.{
  RouteConfig, UpstreamConfig, RegionConfig, TenantConfig, RoutePolicy, RolloutConfig,
  RouteRegistry,
}
use fgoths_framework.Registry.Routes.{
  route_error, clean_route, register, policy_error, clean_policy, register_policy,
}
use fgoths_framework.Registry.Upstreams.{upstream_error, clean_upstream, register_upstream}
use fgoths_framework.Registry.Rollouts.{
  Result-cases, validate, with_defaults, rollout_error, store_rollout, register_rollout,
  register_trimmed, get_rollout,
}
use fgoths_framework.Registry.Regions.{region_error, clean_region, register_region}
use fgoths_framework.Registry.Tenants.{tenant_error, register_tenant}
use fgoths_framework.Registry.Invariant.{
  Change, route, policy, upstream, region, tenant, rollout, change, changes,
}

-- Every entry of the first map is in the second.
abbrev pub Extends : {V : Type 0} → Map V → Map V → Type 0
Extends {V} m m' = (k : Str) (v : V) → lookup k m ≡ some v → lookup k m' ≡ some v

Extends-insert :
    {V : Type 0} (key : Str) (v : V) (m : Map V)
    → is_some (lookup key m) ≡ false
    → Extends m (insert key v m)
Extends-insert key v m fresh k w h = ground (arith, lookup-insert key k v m, str_eq_iff key k)

-- Nothing of the first registry is lost or changed in the second.
pub record Grows (r r' : RouteRegistry) : Type 0 where
  pub routes : Extends r.routes r'.routes
  pub rollouts : Extends r.rollouts r'.rollouts
  pub regions : Extends r.regions r'.regions
  pub tenants : Extends r.tenants r'.tenants
  pub policies : Extends r.policies r'.policies
  pub upstreams : Extends r.upstreams r'.upstreams

same_map : {V : Type 0} (m : Map V) → Extends m m
same_map m k v h = h

Grows-refl : (r : RouteRegistry) → Grows r r
Grows-refl r = record {
  routes = same_map r.routes;
  rollouts = same_map r.rollouts;
  regions = same_map r.regions;
  tenants = same_map r.tenants;
  policies = same_map r.policies;
  upstreams = same_map r.upstreams;
}

Grows-trans : {a b c : RouteRegistry} → Grows a b → Grows b c → Grows a c
Grows-trans f g = record {
  routes = λ k v h. g.routes k v (f.routes k v h);
  rollouts = λ k v h. g.rollouts k v (f.rollouts k v h);
  regions = λ k v h. g.regions k v (f.regions k v h);
  tenants = λ k v h. g.tenants k v (f.tenants k v h);
  policies = λ k v h. g.policies k v (f.policies k v h);
  upstreams = λ k v h. g.upstreams k v (f.upstreams k v h);
}

register-Grows : (cfg : RouteConfig) (r : RouteRegistry) → Grows r (register cfg r).0
unfolding register
register-Grows cfg r = elim (Option-cases (route_error r cfg)) [
  | inr (x, e) ↦ rw (e, register) (Grows-refl r)
  | inl e ↦
      rw (e, register)
        (record {
          rollouts = same_map r.rollouts;
          regions = same_map r.regions;
          tenants = same_map r.tenants;
          policies = same_map r.policies;
          upstreams = same_map r.upstreams;
          routes =
              Extends-insert (trim_space cfg.name) (clean_route cfg) r.routes
                (unfold route_error in ground arith);
        })
]

register_policy-Grows : (cfg : RoutePolicy) (r : RouteRegistry) → Grows r (register_policy cfg r).0
unfolding register_policy
register_policy-Grows cfg r = elim (Option-cases (policy_error r cfg)) [
  | inr (x, e) ↦ rw (e, register_policy) (Grows-refl r)
  | inl e ↦
      rw (e, register_policy)
        (record {
          routes = same_map r.routes;
          rollouts = same_map r.rollouts;
          regions = same_map r.regions;
          tenants = same_map r.tenants;
          upstreams = same_map r.upstreams;
          policies =
              Extends-insert (trim_space cfg.name) (clean_policy cfg) r.policies
                (unfold policy_error in ground arith);
        })
]

register_upstream-Grows :
    (parses : Str → Bool) (cfg : UpstreamConfig) (r : RouteRegistry)
    → Grows r (register_upstream parses cfg r).0
unfolding register_upstream
register_upstream-Grows parses cfg r = elim (Option-cases (upstream_error parses r cfg)) [
  | inr (x, e) ↦ rw (e, register_upstream) (Grows-refl r)
  | inl e ↦
      rw (e, register_upstream)
        (record {
          routes = same_map r.routes;
          rollouts = same_map r.rollouts;
          regions = same_map r.regions;
          tenants = same_map r.tenants;
          policies = same_map r.policies;
          upstreams =
              Extends-insert (trim_space cfg.name) (clean_upstream cfg) r.upstreams
                (unfold upstream_error in ground arith);
        })
]

register_region-Grows : (cfg : RegionConfig) (r : RouteRegistry) → Grows r (register_region cfg r).0
unfolding register_region
register_region-Grows cfg r = elim (Option-cases (region_error r cfg)) [
  | inr (x, e) ↦ rw (e, register_region) (Grows-refl r)
  | inl e ↦
      rw (e, register_region)
        (record {
          routes = same_map r.routes;
          rollouts = same_map r.rollouts;
          tenants = same_map r.tenants;
          policies = same_map r.policies;
          upstreams = same_map r.upstreams;
          regions =
              Extends-insert (trim_space cfg.name) (clean_region cfg) r.regions
                (unfold region_error in ground arith);
        })
]

register_tenant-Grows : (cfg : TenantConfig) (r : RouteRegistry) → Grows r (register_tenant cfg r).0
unfolding register_tenant
register_tenant-Grows cfg r = elim (Option-cases (tenant_error r cfg)) [
  | inr (x, e) ↦ rw (e, register_tenant) (Grows-refl r)
  | inl e ↦
      rw (e, register_tenant)
        (record {
          routes = same_map r.routes;
          rollouts = same_map r.rollouts;
          regions = same_map r.regions;
          policies = same_map r.policies;
          upstreams = same_map r.upstreams;
          tenants =
              Extends-insert (trim_space cfg.name) (record cfg { name = trim_space cfg.name })
                r.tenants (unfold tenant_error in ground arith);
        })
]

store_rollout-Extends :
    (c : RolloutConfig) (m : Map RolloutConfig) → Extends m (store_rollout c m).0
unfolding store_rollout
store_rollout-Extends c m = elim (Bool-cases (is_some (lookup c.name m))) [
  | inl taken ↦ rw (taken, store_rollout) (same_map m)
  | inr fresh ↦ rw (fresh, store_rollout) (Extends-insert c.name c m fresh)
]

register_rollout-Grows :
    (cfg : RolloutConfig) (r : RouteRegistry) → Grows r (register_rollout cfg r).0
unfolding register_rollout
register_rollout-Grows cfg r = elim (Result-cases (validate cfg)) [
  | inl (x, e) ↦ rw (e, register_rollout) (Grows-refl r)
  | inr (c, e) ↦
      rw (e, register_rollout)
        (record {
          routes = same_map r.routes;
          regions = same_map r.regions;
          tenants = same_map r.tenants;
          policies = same_map r.policies;
          upstreams = same_map r.upstreams;
          rollouts = store_rollout-Extends c r.rollouts;
        })
]

change-Grows : (parses : Str → Bool) (r : RouteRegistry) (c : Change) → Grows r (change parses r c)
change-Grows parses r (route cfg) = register-Grows cfg r
change-Grows parses r (policy cfg) = register_policy-Grows cfg r
change-Grows parses r (upstream cfg) = register_upstream-Grows parses cfg r
change-Grows parses r (region cfg) = register_region-Grows cfg r
change-Grows parses r (tenant cfg) = register_tenant-Grows cfg r
change-Grows parses r (rollout cfg) = register_rollout-Grows cfg r

-- No sequence of registrations removes or replaces a configuration: each one that is stored before is
-- stored after it, under the same name and unchanged.
changes-Grows :
    (parses : Str → Bool) (cs : List Change) (r : RouteRegistry) → Grows r (changes parses r cs)
changes-Grows parses [] r = Grows-refl r
changes-Grows parses (c ∷ cs) r =
    Grows-trans (change-Grows parses r c) (changes-Grows parses cs (change parses r c))

-- RouteRegistry.RegisterRollout stores a rollout under its name as given, and GetRollout looks up
-- trimmed names: registering a name with spaces around it changes no answer of GetRollout.
register_rollout_padded :
    (c : RolloutConfig) (r : RouteRegistry) (name : Str)
    → c.name ≢ trim_space c.name
    → get_rollout name (register_rollout c r).0.rollouts ≡ get_rollout name r.rollouts
unfolding register_rollout store_rollout get_rollout validate with_defaults
register_rollout_padded c r name padded =
    let apart : c.name ≢ trim_space name =
      λ q. padded (q ∙ sym (trim_space_idem name) ∙ ap trim_space (sym q)) in
    elim (Option-cases (rollout_error c)) [
      | inr (x, e) ↦ ground arith
      | inl e ↦ ground (
        arith,
        str_eq_iff c.name (trim_space name),
        apart,
        lookup-insert c.name (trim_space name) (with_defaults c) r.rollouts,
      )
    ]

-- RolloutRegistry.RegisterRollout trims the name first: what it stores without an error, GetRollout
-- finds under the name as given.
register_trimmed-get :
    (c : RolloutConfig) (m : Map RolloutConfig)
    → (register_trimmed c m).1 ≡ none
    → (stored : RolloutConfig) × (get_rollout c.name (register_trimmed c m).0 ≡ some stored)
      × (stored.target ≡ trim_space c.target)
      × (stored.canary_weight ≡ c.canary_weight)
unfolding register_trimmed store_rollout get_rollout validate with_defaults
register_trimmed-get c m e =
    let c' : RolloutConfig = record c {
      name = trim_space c.name;
      route = trim_space c.route;
      target = trim_space c.target;
    } in
    elim (Option-cases (rollout_error c')) [
      | inr (x, h) ↦ absurd (ground arith)
      | inl h ↦ (
        with_defaults c',
        ground (
          arith,
          str_eq_iff (trim_space c.name) (trim_space c.name),
          lookup-insert (trim_space c.name) (trim_space c.name) (with_defaults c') m,
        ),
        refl,
        refl,
      )
    ]
