-- ===== src/Control/Routing.antt =====
-- The routing table of the API, matchRoute, splitPath and routeAPI (pkg/runtime/controlplane.go).
use fgoths_framework.Prelude.{
  Bool, ◌&&◌, List, [], ◌∷◌, Option, none, some, is_empty, reverse, ◌==◌, if◌then◌else◌,
}
use fgoths_framework.Prelude.Text.{
  Str, codes, str_eq, has_prefix, has_suffix, trim_prefix, split_byte,
}
use fgoths_framework.Prelude.Maps.{Map, lookup}

-- The methods of ControlPlaneServer that handle a request.
pub data ApiHandler : Type 0 where
  list_upstreams create_upstream list_routes create_route resolve_route : ApiHandler
  list_deployments create_deployment get_deployment get_deployment_history : ApiHandler
  list_releases create_release get_release approve_release rollback_release reject_release :
      ApiHandler
  list_policies create_policy get_policy update_policy policy_history rollback_policy : ApiHandler

pub record ApiRoute : Type 0 where
  pub segments : List Str
  pub methods : Map ApiHandler

abbrev pub gets : ApiHandler → Map ApiHandler
gets h = (codes "GET", h) ∷ []

abbrev pub posts : ApiHandler → Map ApiHandler
posts h = (codes "POST", h) ∷ []

abbrev pub release : List Str → List Str
release rest =
    codes "releases" ∷ codes "{service}" ∷ codes "{environment}" ∷ codes "{version}" ∷ rest

abbrev deployment : List Str → List Str
deployment rest = codes "deployments" ∷ codes "{service}" ∷ codes "{environment}" ∷ rest

abbrev policy : List Str → List Str
policy rest = codes "policies" ∷ codes "{name}" ∷ rest

abbrev pub on : List Str → Map ApiHandler → ApiRoute
on segments methods = record { segments = segments; methods = methods }

unfoldable pub api_routing_table : List ApiRoute
api_routing_table =
    on (codes "upstreams" ∷ [])
      ((codes "GET", list_upstreams) ∷ (codes "POST", create_upstream) ∷ [])
    ∷ on (codes "routes" ∷ []) ((codes "GET", list_routes) ∷ (codes "POST", create_route) ∷ [])
    ∷ on (codes "routes" ∷ codes "{name}" ∷ codes "target" ∷ []) (gets resolve_route)
    ∷ on (codes "deployments" ∷ [])
        ((codes "GET", list_deployments) ∷ (codes "POST", create_deployment) ∷ [])
    ∷ on (deployment []) (gets get_deployment)
    ∷ on (deployment (codes "history" ∷ [])) (gets get_deployment_history)
    ∷ on (codes "releases" ∷ [])
        ((codes "GET", list_releases) ∷ (codes "POST", create_release) ∷ [])
    ∷ on (release []) (gets get_release)
    ∷ on (release (codes "approve" ∷ [])) (posts approve_release)
    ∷ on (release (codes "rollback" ∷ [])) (posts rollback_release)
    ∷ on (release (codes "reject" ∷ [])) (posts reject_release)
    ∷ on (codes "policies" ∷ []) ((codes "GET", list_policies) ∷ (codes "POST", create_policy) ∷ [])
    ∷ on (policy []) ((codes "GET", get_policy) ∷ (codes "PUT", update_policy) ∷ [])
    ∷ on (policy (codes "history" ∷ [])) (gets policy_history)
    ∷ on (policy (codes "rollback" ∷ [])) (posts rollback_policy)
    ∷ []

unfoldable pub is_param : Str → Bool
is_param segment = has_prefix segment (codes "{") && has_suffix segment (codes "}")

abbrev with_param : Str → Option (List Str) → Option (List Str)
with_param p none = none
with_param p (some ps) = some (p ∷ ps)

-- The captured segments, `none` if the pattern does not match. Patterns of another length do not.
unfoldable pub match_route : (pattern parts : List Str) → Option (List Str)
unfolding is_param
match_route [] [] = some []
match_route (s ∷ pattern) (p ∷ parts) =
    let rest = match_route pattern parts in
    if is_param s then with_param p rest else if str_eq s p then rest else none
match_route [] (p ∷ parts) = none
match_route (s ∷ pattern) [] = none

abbrev drop_slashes : Str → Str
drop_slashes [] = []
drop_slashes (b ∷ s) = let rest = drop_slashes s in if b == b'/' then rest else b ∷ s

unfoldable pub split_path : Str → List Str
split_path path =
    let trimmed = reverse (drop_slashes (reverse (drop_slashes path))) in
    if is_empty trimmed then [] ∷ [] else split_byte trimmed b'/'

pub data Routed : Type 0 where
  not_found method_not_allowed : Routed
  handled : ApiHandler → (params : List Str) → Routed

unfoldable pub dispatch : (method : Str) → Map ApiHandler → (params : List Str) → Routed
dispatch method methods params = elim (lookup method methods) [
  | none ↦ method_not_allowed
  | some handler ↦ handled handler params
]

unfoldable pub first_match : (method : Str) (parts : List Str) → List ApiRoute → Routed
unfolding match_route dispatch
first_match method parts [] = not_found
first_match method parts (route ∷ routes) =
    let rest = first_match method parts routes in
    elim (match_route route.segments parts) [
      | none ↦ rest
      | some params ↦ dispatch method route.methods params
    ]

unfoldable pub route_api : (method path : Str) → Routed
unfolding first_match split_path api_routing_table
route_api method path =
    first_match method (split_path (trim_prefix path (codes "/api/v1"))) api_routing_table
