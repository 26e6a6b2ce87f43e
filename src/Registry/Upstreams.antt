-- ===== src/Registry/Upstreams.antt =====
-- pkg/runtime/upstream.go. Go's iteration order, its random numbers and url.Parse are arguments.
use fgoths_framework.Prelude.{
  Bool, not, ◌&&◌, ◌||◌, List, [], ◌∷◌, Option, none, some, any, is_some, is_empty, keep, map,
  if◌then◌else◌,
}
use fgoths_framework.Prelude.Int.{ℤ, pos, ltb_ℤ, eq_ℤ, ◌+ℤ◌, wrap_int64, ◌-ℤ◌}
use fgoths_framework.Prelude.Text.{Str, str_eq, trim_space}
use fgoths_framework.Prelude.Maps.{Map, lookup, insert}
use fgoths_framework.Registry.State.{
  UpstreamConfig, RouteRegistry, RegistryError, name_required, target_required, invalid_url,
  own_fallback, already_exists,
}

unfoldable pub clean_upstream : UpstreamConfig → UpstreamConfig
clean_upstream cfg = record cfg {
  name = trim_space cfg.name;
  target = trim_space cfg.target;
  fallback = trim_space cfg.fallback;
  weight = if ltb_ℤ cfg.weight (pos 0) || eq_ℤ cfg.weight (pos 0) then pos 1 else cfg.weight;
}

-- `parses` says which targets url.Parse accepts.
unfoldable pub upstream_error : (Str → Bool) → RouteRegistry → UpstreamConfig → Option RegistryError
upstream_error parses r cfg =
    if is_empty (trim_space cfg.name)
    then some name_required
    else if is_empty (trim_space cfg.target)
    then some target_required
    else if not (parses (trim_space cfg.target))
    then some invalid_url
    else if str_eq (trim_space cfg.fallback) (trim_space cfg.name)
    then some own_fallback
    else if is_some (lookup (trim_space cfg.name) r.upstreams)
    then some already_exists
    else none

unfoldable pub register_upstream :
    (Str → Bool) → UpstreamConfig → RouteRegistry → RouteRegistry × Option RegistryError
unfolding upstream_error clean_upstream
register_upstream parses cfg r = elim (upstream_error parses r cfg) [
  | some e ↦ (r, some e)
  | none ↦
      (record r { upstreams = insert (trim_space cfg.name) (clean_upstream cfg) r.upstreams }, none)
]

unfoldable pub get_upstream : Str → RouteRegistry → Option UpstreamConfig
get_upstream name r = lookup (trim_space name) r.upstreams

unfoldable pub usable : UpstreamConfig → Option UpstreamConfig
usable fb = if fb.enabled && fb.healthy then some fb else none

unfoldable pub fall_back : UpstreamConfig → RouteRegistry → Option UpstreamConfig
unfolding usable
fall_back up r = elim (lookup up.fallback r.upstreams) [ none ↦ none | some fb ↦ usable fb ]

unfoldable pub select_from : UpstreamConfig → RouteRegistry → Option UpstreamConfig
unfolding fall_back
select_from up r =
    if not up.enabled
    then none
    else if up.healthy
    then some up
    else if is_empty up.fallback
    then none
    else fall_back up r

unfoldable pub select_upstream : Str → RouteRegistry → Option UpstreamConfig
unfolding select_from
select_upstream name r = elim (lookup (trim_space name) r.upstreams) [
  | none ↦ none
  | some up ↦ select_from up r
]

unfoldable pub serves_service : UpstreamConfig → Str → Bool
serves_service up service =
    is_empty up.services || any (λ s. str_eq (trim_space s) service) up.services

-- The test by which the loop of PickUpstream fills its pool.
unfoldable pub in_pool : Str → UpstreamConfig → Bool
unfolding serves_service
in_pool service up = up.enabled && (up.healthy && (is_empty service || serves_service up service))

-- The `int` total wraps around at 64 bits.
unfoldable pub total_weight : List UpstreamConfig → ℤ
total_weight [] = pos 0
total_weight (up ∷ pool) = wrap_int64 (up.weight +ℤ total_weight pool)

-- `none` is the panic of Go on an empty pool, which no caller passes.
unfoldable pub pick_weighted_upstream : List UpstreamConfig → ℤ → Option UpstreamConfig
pick_weighted_upstream [] pick = none
pick_weighted_upstream (up ∷ []) pick = some up
pick_weighted_upstream (up ∷ next ∷ pool) pick =
    let rest = pick_weighted_upstream (next ∷ pool) (pick -ℤ up.weight) in
    if ltb_ℤ (pick -ℤ up.weight) (pos 0) then some up else rest

module _ (order : Map UpstreamConfig → List (Str × UpstreamConfig)) (random : ℤ → ℤ) where
  unfoldable pub pool_for : Str → RouteRegistry → List UpstreamConfig
  unfolding in_pool
  pool_for service r = keep (in_pool service) (map (λ x. x.1) (order r.upstreams))

  -- `random n` stands for rand.Intn(n).
  unfoldable pub pick_upstream : Str → RouteRegistry → Option UpstreamConfig
  unfolding pool_for total_weight
  pick_upstream service r =
      let pool = pool_for (trim_space service) r in
      if is_empty pool then none else pick_weighted_upstream pool (random (total_weight pool))

  unfoldable pub first_service : Str → Str → List Str → RouteRegistry → Option UpstreamConfig
  unfolding pick_upstream
  first_service name service _ r = elim (pick_upstream service r) [
    | some up ↦ some up
    | none ↦ select_upstream name r
  ]

  unfoldable pub pick_named : Str → List Str → RouteRegistry → Option UpstreamConfig
  unfolding first_service
  pick_named name [] r = select_upstream name r
  pick_named name (service ∷ more) r = first_service name service more r

  unfoldable pub pick_for_route : Str → RouteRegistry → Option UpstreamConfig
  unfolding pick_named
  pick_for_route name r = elim (lookup (trim_space name) r.upstreams) [
    | none ↦ none
    | some named ↦ pick_named name named.services r
  ]

  unfoldable pub resolve_route_target : Str → RouteRegistry → Option Str
  unfolding pick_for_route
  resolve_route_target name r = elim (lookup (trim_space name) r.routes) [
    | none ↦ none
    | some route ↦
        if not (is_empty route.upstream)
        then (elim (pick_for_route route.upstream r) [ none ↦ none | some up ↦ some up.target ])
        else if not (is_empty route.target)
        then some route.target
        else none
  ]
