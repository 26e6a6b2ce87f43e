-- ===== src/Registry/Routes.antt =====
-- Register, Get, RegisterPolicy, GetPolicy and ValidatePolicy of pkg/runtime/config_registry.go.
use fgoths_framework.Prelude.{
  Bool, not, ◌&&◌, ◌||◌, List, Option, none, some, any, is_some, is_empty, if◌then◌else◌,
}
use fgoths_framework.Prelude.Int.{pos, ltb_ℤ, eq_ℤ}
use fgoths_framework.Prelude.Float.{float}
use fgoths_framework.Prelude.Text.{Str, codes, str_eq, trim_space, to_upper}
use fgoths_framework.Prelude.Maps.{lookup, insert}
use fgoths_framework.Router.Path.{root, normalize_path}
use fgoths_framework.Registry.State.{
  RouteConfig, RoutePolicy, RouteRegistry, RegistryError, new_slo_policy, name_required,
  path_required, target_required, unknown_upstream, disabled_needs_weight, disabled, already_exists,
  service_required, not_found, tenant_required, tenant_denied, region_required, region_denied,
  needs_slo,
}

abbrev pub http_method_any : Str
http_method_any = codes "ANY"

-- The route as the last step stores it; weight 0 stands for 100, and a negative one for 0.
unfoldable pub clean_route : RouteConfig → RouteConfig
clean_route cfg =
    let method = to_upper (trim_space cfg.method) in
    record cfg {
      name = trim_space cfg.name;
      method = if is_empty method then http_method_any else method;
      path = normalize_path cfg.path;
      target = trim_space cfg.target;
      upstream = if is_empty cfg.upstream then cfg.upstream else trim_space cfg.upstream;
      weight = if ltb_ℤ cfg.weight (pos 0) || eq_ℤ cfg.weight (pos 0) then pos 100 else cfg.weight;
    }

-- The first check that fails, in the order of the code.
unfoldable pub route_error : RouteRegistry → RouteConfig → Option RegistryError
route_error r cfg =
    let path = normalize_path cfg.path in
    let method = to_upper (trim_space cfg.method) in
    if is_empty (trim_space cfg.name)
    then some name_required
    else if is_empty path || (str_eq path root && is_empty method)
    then some path_required
    else if is_empty (trim_space cfg.target) && is_empty cfg.upstream
    then some target_required
    else if not (is_empty cfg.upstream)
        && not (is_some (lookup (trim_space cfg.upstream) r.upstreams))
    then some unknown_upstream
    else if not cfg.enabled
    then (if ltb_ℤ cfg.weight (pos 0) || eq_ℤ cfg.weight (pos 0)
        then some disabled_needs_weight
        else some disabled)
    else if is_some (lookup (trim_space cfg.name) r.routes)
    then some already_exists
    else none

unfoldable pub register : RouteConfig → RouteRegistry → RouteRegistry × Option RegistryError
unfolding route_error clean_route
register cfg r = elim (route_error r cfg) [
  | some e ↦ (r, some e)
  | none ↦ (record r { routes = insert (trim_space cfg.name) (clean_route cfg) r.routes }, none)
]

unfoldable pub get : Str → RouteRegistry → Option RouteConfig
get name r = lookup (trim_space name) r.routes

unfoldable pub clean_policy : RoutePolicy → RoutePolicy
clean_policy policy =
    let environment = trim_space policy.environment in
    record policy {
      name = trim_space policy.name;
      environment = if is_empty environment then codes "prod" else environment;
      service = trim_space policy.service;
      slo =
          if is_some policy.slo
          then policy.slo
          else some (new_slo_policy (float 5 100) (pos 250) (float 2 100));
    }

unfoldable pub policy_error : RouteRegistry → RoutePolicy → Option RegistryError
policy_error r policy =
    if is_empty (trim_space policy.name)
    then some name_required
    else if is_empty (trim_space policy.service)
    then some service_required
    else if is_some (lookup (trim_space policy.name) r.policies)
    then some already_exists
    else none

unfoldable pub register_policy : RoutePolicy → RouteRegistry → RouteRegistry × Option RegistryError
unfolding policy_error clean_policy
register_policy policy r = elim (policy_error r policy) [
  | some e ↦ (r, some e)
  | none ↦ (
    record r { policies = insert (trim_space policy.name) (clean_policy policy) r.policies },
    none,
  )
]

unfoldable pub get_policy : Str → RouteRegistry → Option RoutePolicy
get_policy name r = lookup (trim_space name) r.policies

-- An empty list allows everything.
unfoldable pub allows : List Str → Str → Bool
allows allowed name = is_empty allowed || any (λ a. str_eq (trim_space a) (trim_space name)) allowed

unfoldable pub check_policy : RoutePolicy → Str → Str → Option RegistryError
unfolding allows
check_policy policy tenant region =
    if is_empty (trim_space tenant)
    then some tenant_required
    else if is_empty (trim_space region)
    then some region_required
    else if not (allows policy.allowed_tenants tenant)
    then some tenant_denied
    else if not (allows policy.allowed_regions region)
    then some region_denied
    else if (policy.require_signed_artifacts || policy.require_audit) && not (is_some policy.slo)
    then some needs_slo
    else none

-- `none` is Go's nil error.
unfoldable pub validate_policy : Str → Str → Str → RouteRegistry → Option RegistryError
unfolding get_policy check_policy
validate_policy name tenant region r = elim (get_policy name r) [
  | none ↦ some not_found
  | some policy ↦ check_policy policy tenant region
]
