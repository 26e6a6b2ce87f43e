-- ===== src/Registry/Tenants.antt =====
-- pkg/runtime/tenant_registry.go.
use fgoths_framework.Prelude.{
  Bool, false, not, List, Option, none, some, any, is_some, is_empty, if◌then◌else◌,
}
use fgoths_framework.Prelude.Text.{Str, str_eq, trim_space}
use fgoths_framework.Prelude.Maps.{lookup, insert}
use fgoths_framework.Registry.State.{
  TenantConfig, RouteRegistry, RegistryError, name_required, disabled, already_exists,
}

unfoldable pub tenant_error : RouteRegistry → TenantConfig → Option RegistryError
tenant_error r cfg =
    if is_empty (trim_space cfg.name)
    then some name_required
    else if not cfg.enabled
    then some disabled
    else if is_some (lookup (trim_space cfg.name) r.tenants)
    then some already_exists
    else none

unfoldable pub register_tenant : TenantConfig → RouteRegistry → RouteRegistry × Option RegistryError
unfolding tenant_error
register_tenant cfg r = elim (tenant_error r cfg) [
  | some e ↦ (r, some e)
  | none ↦ (
    record r {
      tenants = insert (trim_space cfg.name) (record cfg { name = trim_space cfg.name }) r.tenants;
    },
    none,
  )
]

unfoldable pub get_tenant : Str → RouteRegistry → Option TenantConfig
get_tenant name r = lookup (trim_space name) r.tenants

unfoldable pub lists : List Str → Str → Bool
lists allowed name = any (λ a. str_eq (trim_space a) (trim_space name)) allowed

unfoldable pub access : (TenantConfig → List Str) → Str → Str → RouteRegistry → Bool
access scope tenant name r = elim (lookup (trim_space tenant) r.tenants) [
  | none ↦ false
  | some cfg ↦ if not cfg.enabled then false else lists (scope cfg) name
]

unfoldable pub can_access_route : Str → Str → RouteRegistry → Bool
unfolding access lists
can_access_route = access (λ cfg. cfg.allowed_routes)

unfoldable pub can_access_region : Str → Str → RouteRegistry → Bool
unfolding access lists
can_access_region = access (λ cfg. cfg.allowed_regions)
