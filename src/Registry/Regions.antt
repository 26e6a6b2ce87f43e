-- ===== src/Registry/Regions.antt =====
-- pkg/runtime/region.go. `order` is the order in which Go ranges over the map.
use fgoths_framework.Prelude.{
  Bool, true, not, ◌&&◌, ◌||◌, List, [], ◌∷◌, Option, none, some, is_some, is_empty, if◌then◌else◌,
}
use fgoths_framework.Prelude.Int.{ℤ, pos, ltb_ℤ, leb_ℤ, eq_ℤ}
use fgoths_framework.Prelude.Float.{Float, float, float_lt, float_le}
use fgoths_framework.Prelude.Text.{Str, str_eq, trim_space}
use fgoths_framework.Prelude.Maps.{Map, lookup, insert}
use fgoths_framework.Registry.State.{
  RegionConfig, RouteRegistry, RegistryError, name_required, region_required, target_required,
  disabled, already_exists,
}

pub record RegionMetrics : Type 0 where
  pub latency_ms : ℤ
  pub error_rate : Float

pub data RegionReason : Type 0 where
  primary_healthy failover primary_acceptable primary_degraded : RegionReason

pub record RegionDecision : Type 0 where
  pub allow : Bool
  pub name : Str
  pub target : Str
  pub reason : RegionReason

unfoldable pub region_error : RouteRegistry → RegionConfig → Option RegistryError
region_error r cfg =
    if is_empty (trim_space cfg.name)
    then some name_required
    else if is_empty (trim_space cfg.region)
    then some region_required
    else if is_empty (trim_space cfg.target)
    then some target_required
    else if not cfg.enabled
    then some disabled
    else if is_some (lookup (trim_space cfg.name) r.regions)
    then some already_exists
    else none

-- As the last step stores it; the check before it leaves only enabled regions.
unfoldable pub clean_region : RegionConfig → RegionConfig
clean_region cfg =
    let weight = if ltb_ℤ cfg.weight (pos 0) then pos 0 else cfg.weight in
    record cfg {
      name = trim_space cfg.name;
      region = trim_space cfg.region;
      target = trim_space cfg.target;
      weight = if eq_ℤ weight (pos 0) && cfg.enabled then pos 100 else weight;
    }

unfoldable pub register_region : RegionConfig → RouteRegistry → RouteRegistry × Option RegistryError
unfolding region_error clean_region
register_region cfg r = elim (region_error r cfg) [
  | some e ↦ (r, some e)
  | none ↦ (record r { regions = insert (trim_space cfg.name) (clean_region cfg) r.regions }, none)
]

unfoldable pub get_region : Str → RouteRegistry → Option RegionConfig
get_region name r = lookup (trim_space name) r.regions

abbrev pub is_available : RegionConfig → Bool
is_available region = region.enabled && region.healthy

-- The first region of the loop that may stand in for the one named.
unfoldable pub find_fallback : Str → List (Str × RegionConfig) → Option RegionConfig
find_fallback name [] = none
find_fallback name ((k, region) ∷ rest) =
    let later = find_fallback name rest in
    if is_available region && not (str_eq region.name name) then some region else later

abbrev pub is_degraded : RegionMetrics → Bool
is_degraded m = leb_ℤ (pos 250) m.latency_ms || float_lt (float 5 100) m.error_rate

abbrev pub choose : RegionConfig → Bool → RegionReason → RegionDecision
choose region allow reason = record {
  allow = allow;
  name = region.name;
  target = region.target;
  reason = reason;
}

module _ (order : Map RegionConfig → List (Str × RegionConfig)) where
  unfoldable pub or_else : Option RegionConfig → Option RegionConfig → Option RegionConfig
  or_else (some a) o = some a
  or_else none o = o

  unfoldable pub select_region : Str → RouteRegistry → Option RegionConfig
  unfolding or_else find_fallback
  select_region name r =
      let fallback = find_fallback name (order r.regions) in
      elim (lookup (trim_space name) r.regions) [
        | none ↦ fallback
        | some primary ↦
            if is_available primary then some primary else or_else fallback (some primary)
      ]

  -- The loop returns its first fallback only if the metrics are bad, and otherwise runs to its end.
  unfoldable pub evaluate_primary :
      Str → RegionConfig → RegionMetrics → RouteRegistry → RegionDecision
  unfolding find_fallback
  evaluate_primary name primary m r =
      let otherwise =
        choose primary primary.healthy
          (if primary.healthy then primary_acceptable else primary_degraded) in
      if primary.healthy && (ltb_ℤ m.latency_ms (pos 250) && float_le m.error_rate (float 5 100))
      then choose primary true primary_healthy
      else if is_degraded m
      then (elim (find_fallback name (order r.regions)) [
        | some region ↦ choose region true failover
        | none ↦ otherwise
      ])
      else otherwise

  unfoldable pub evaluate_region : Str → RegionMetrics → RouteRegistry → Option RegionDecision
  unfolding evaluate_primary
  evaluate_region name m r = elim (lookup (trim_space name) r.regions) [
    | none ↦ none
    | some primary ↦ if primary.enabled then some (evaluate_primary name primary m r) else none
  ]
