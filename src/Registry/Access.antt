-- ===== src/Registry/Access.antt =====
-- Who may do what: CanAccessRoute and CanAccessRegion of pkg/runtime/tenant_registry.go, and
-- ValidatePolicy of pkg/runtime/config_registry.go.
use mathlib.Core.List.{Memᴰ}
use fgoths_framework.Prelude.{
  ◌≡◌, ◌≢◌, ◌↔◌, ◌⊎◌, inl, inr, refl, sym, ap, ◌∙◌, true, List, [], ◌∷◌, none, some, arith, any,
  is_some, Bool-cases, Option-cases, ◌||◌,
}
use fgoths_framework.Prelude.Text.{Str, str_eq, str_eq_iff, trim_space}
use fgoths_framework.Prelude.Maps.{lookup}
use fgoths_framework.Registry.State.{TenantConfig, RoutePolicy, RouteRegistry}
use fgoths_framework.Registry.Routes.{get_policy, allows, check_policy, validate_policy}
use fgoths_framework.Registry.Tenants.{lists, access, can_access_route, can_access_region}

-- The list has the name, but for spaces around it.
abbrev pub Lists : List Str → Str → Type 0
Lists allowed name = (a : Str) × Memᴰ a allowed × (trim_space a ≡ trim_space name)

any-Lists :
    (allowed : List Str) (name : Str)
    → any (λ a. str_eq (trim_space a) (trim_space name)) allowed ≡ true
    → Lists allowed name
any-Lists [] name e = absurd (ground arith)
any-Lists (a ∷ allowed) name e = elim (Bool-cases (str_eq (trim_space a) (trim_space name))) [
  | inl same ↦ (a, Memᴰ.head refl, (str_eq_iff (trim_space a) (trim_space name)).0 same)
  | inr other ↦
      let (b, there, same) = any-Lists allowed name (ground arith) in (b, Memᴰ.tail there, same)
]

Lists-any :
    (allowed : List Str) (name a : Str)
    → Memᴰ a allowed
    → trim_space a ≡ trim_space name
    → any (λ b. str_eq (trim_space b) (trim_space name)) allowed ≡ true
Lists-any [] name a t e = elim t [ ]
Lists-any (b ∷ allowed) name a (Memᴰ.head q) e =
    let same : trim_space b ≡ trim_space name = ap trim_space (sym q) ∙ e in
    ground (arith, str_eq_iff (trim_space b) (trim_space name))
Lists-any (b ∷ allowed) name a (Memᴰ.tail t) e = ground (arith, Lists-any allowed name a t e)

access_iff :
    (scope : TenantConfig → List Str) (tenant name : Str) (r : RouteRegistry)
    → (access scope tenant name r ≡ true) ↔ (
        (cfg : TenantConfig) × (lookup (trim_space tenant) r.tenants ≡ some cfg)
        × (cfg.enabled ≡ true)
        × Lists (scope cfg) name)
unfolding access lists
access_iff scope tenant name r = (to, from)
  where
    to :
        access scope tenant name r ≡ true
        → (cfg : TenantConfig) × (lookup (trim_space tenant) r.tenants ≡ some cfg)
          × (cfg.enabled ≡ true)
          × Lists (scope cfg) name
    to e = elim (Option-cases (lookup (trim_space tenant) r.tenants)) [
      | inl gone ↦ absurd (ground arith)
      | inr (cfg, h) ↦ (cfg, h, ground arith, any-Lists (scope cfg) name (ground arith))
    ]

    from :
        (cfg : TenantConfig) × (lookup (trim_space tenant) r.tenants ≡ some cfg)
          × (cfg.enabled ≡ true)
          × Lists (scope cfg) name
        → access scope tenant name r ≡ true
    from (cfg, h, active, (a, there, same)) =
        let listed = Lists-any (scope cfg) name a there same in ground arith

-- A tenant may use a route, or a region, exactly if it is registered and enabled and its list has the
-- name, all compared without the spaces around them; an empty list allows nothing.
can_access_iff :
    (tenant name : Str) (r : RouteRegistry)
    → ((can_access_route tenant name r ≡ true) ↔ (
        (cfg : TenantConfig) × (lookup (trim_space tenant) r.tenants ≡ some cfg)
        × (cfg.enabled ≡ true)
        × Lists cfg.allowed_routes name))
      × ((can_access_region tenant name r ≡ true) ↔ (
          (cfg : TenantConfig) × (lookup (trim_space tenant) r.tenants ≡ some cfg)
          × (cfg.enabled ≡ true)
          × Lists cfg.allowed_regions name))
unfolding can_access_route can_access_region
can_access_iff tenant name r = (
  access_iff (λ cfg. cfg.allowed_routes) tenant name r,
  access_iff (λ cfg. cfg.allowed_regions) tenant name r,
)

-- What a policy asks of a tenant and a region.
pub record IsGranted (policy : RoutePolicy) (tenant region : Str) : Type 0 where
  pub tenant_named : trim_space tenant ≢ []
  pub region_named : trim_space region ≢ []
  pub tenants : (policy.allowed_tenants ≡ []) ⊎ Lists policy.allowed_tenants tenant
  pub regions : (policy.allowed_regions ≡ []) ⊎ Lists policy.allowed_regions region
  pub guarded :
      (policy.require_signed_artifacts || policy.require_audit) ≡ true → is_some policy.slo ≡ true

allows-Lists :
    (allowed : List Str) (name : Str)
    → allows allowed name ≡ true
    → (allowed ≡ []) ⊎ Lists allowed name
unfolding allows
allows-Lists [] name e = inl refl
allows-Lists (a ∷ allowed) name e = inr (any-Lists (a ∷ allowed) name (ground arith))

check_policy-IsGranted :
    (policy : RoutePolicy) (tenant region : Str)
    → check_policy policy tenant region ≡ none
    → IsGranted policy tenant region
unfolding check_policy
check_policy-IsGranted policy tenant region e = record {
  tenant_named = λ q. ground arith;
  region_named = λ q. ground arith;
  tenants = allows-Lists policy.allowed_tenants tenant (ground arith);
  regions = allows-Lists policy.allowed_regions region (ground arith);
  guarded = λ q. ground arith;
}

-- ValidatePolicy without an error means that the policy is registered, that the tenant and the region
-- have names, that each of the policy's lists is empty or has the name, and that a policy which
-- asks for signed artifacts or audit has an SLO.
validate_policy-IsGranted :
    (name tenant region : Str) (r : RouteRegistry)
    → validate_policy name tenant region r ≡ none
    → (policy : RoutePolicy) × (lookup (trim_space name) r.policies ≡ some policy)
      × IsGranted policy tenant region
unfolding validate_policy get_policy
validate_policy-IsGranted name tenant region r e =
    elim (Option-cases (lookup (trim_space name) r.policies)) [
      | inl gone ↦ absurd (ground arith)
      | inr (policy, h) ↦ (policy, h, check_policy-IsGranted policy tenant region (ground arith))
    ]
