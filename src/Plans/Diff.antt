-- ===== src/Plans/Diff.antt =====
-- RouteRegistrySnapshot, ConfigDiff and BuildConfigDiff (pkg/runtime/governance.go). The instant of the
-- diff is left out.
use fgoths_framework.Prelude.{
  Bool, true, false, not, ◌&&◌, List, [], ◌∷◌, Option, none, some, is_empty, if◌then◌else◌,
}
use fgoths_framework.Prelude.Int.{eq_ℤ}
use fgoths_framework.Prelude.Text.{Str, str_eq}
use fgoths_framework.Prelude.Maps.{Map, lookup, insert}
use fgoths_framework.Registry.State.{RouteConfig, RolloutConfig, RegionConfig, TenantConfig}

pub record RouteRegistrySnapshot : Type 0 where
  pub routes : List RouteConfig
  pub rolls : List RolloutConfig
  pub regions : List RegionConfig
  pub tenants : List TenantConfig

pub record RouteChange : Type 0 where
  pub name : Str
  pub before : Str
  pub after : Str

pub record ConfigDiff : Type 0 where
  pub has_changes : Bool
  pub routes : List RouteChange

-- A later route of the same name replaces an earlier one.
unfoldable pub index_routes : List RouteConfig → Map RouteConfig → Map RouteConfig
index_routes [] m = m
index_routes (r ∷ rs) m = index_routes rs (insert r.name r m)

abbrev pub same_bool : Bool → Bool → Bool
same_bool true b = b
same_bool false b = not b

-- The route is as it was.
unfoldable pub is_same : Option RouteConfig → RouteConfig → Bool
is_same none r = false
is_same (some p) r =
    str_eq p.target r.target && (eq_ℤ p.weight r.weight && same_bool p.enabled r.enabled)

abbrev pub target_before : Option RouteConfig → Str
target_before none = []
target_before (some p) = p.target

unfoldable pub route_changes : Map RouteConfig → List RouteConfig → List RouteChange
unfolding is_same
route_changes m [] = []
route_changes m (r ∷ rs) =
    let rest = route_changes m rs in
    let change : RouteChange = record {
      name = r.name;
      before = target_before (lookup r.name m);
      after = r.target;
    } in
    if is_same (lookup r.name m) r then rest else change ∷ rest

unfoldable pub build_config_diff : RouteRegistrySnapshot → RouteRegistrySnapshot → ConfigDiff
unfolding index_routes route_changes
build_config_diff before after =
    let changes = route_changes (index_routes before.routes []) after.routes in
    if is_empty before.routes && is_empty after.routes
    then record { has_changes = false; routes = [] }
    else record { has_changes = not (is_empty changes); routes = changes }
