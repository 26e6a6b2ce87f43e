-- ===== src/Router/Values.antt =====
-- PathValue after registration and routing (pkg/runtime/router.go).
use mathlib.Core.Option
use fgoths_framework.Prelude.{
  ◌≡◌, ◌≢◌, ◌∙◌, subst, true, List, [], ◌∷◌, some, arith, drop, Option-cases, inl, inr,
}
use fgoths_framework.Prelude.Text.{Str}
use fgoths_framework.Prelude.Maps.{Map, lookup, row, lookup2, lookup_of_mem}
use fgoths_framework.Router.Path.{normalize_path}
use fgoths_framework.Router.Pattern.{RouteSegment}
use fgoths_framework.Router.Match.{match_params, param_value}
use fgoths_framework.Router.Table.{
  RouteEntry, Router, PatternIndex, param_segments, new_router, match_route, path_value,
}
use fgoths_framework.Router.Dispatch.{IsIteration, IsChosen, Answer, match_route-Answer}
use fgoths_framework.Router.Captures.{PathMatch, match_params_sound}
use fgoths_framework.Router.Index.{IsRegistered, Setup, setup, new_router-IsRegistered}

-- An answer with parameters to a path that is not the pattern itself matches the path.
chosen-match_params :
    {H : Type 0} (path : Str) (table : Map (RouteEntry H)) (p : Str) (e : RouteEntry H)
    → IsChosen path table p e
    → e.has_params ≡ true
    → p ≢ path
    → match_params e.segments path ≡ true
chosen-match_params path table p e (IsChosen.exact same) t other = absurd (other same)
chosen-match_params path table p e (IsChosen.by_params missing hit best) t other = hit.matches
chosen-match_params path table p e (IsChosen.by_prefix missing none_there hit best) t other =
    absurd (ground (arith, t, hit.no_params))
chosen-match_params path table p e (IsChosen.by_root missing none_there no_prefix hit) t other =
    absurd (ground (arith, t, hit.no_params))

-- The path after its first byte is the segments with values for their parameters, and `value` yields
-- the first value of each name, or "" for a name that is no parameter.
abbrev pub Reads : List RouteSegment → Str → (Str → Str) → Type 0
Reads segments path value =
    (values : Map Str) × PathMatch segments (drop 1 path) values
    × ((name : Str) → value name ≡ Option.get_or (lookup name values) [])

match_params-Reads :
    (segments : List RouteSegment) (path : Str)
    → match_params segments path ≡ true
    → Reads segments path (param_value segments path)
unfolding match_params
match_params-Reads segments [] h = absurd (ground arith)
match_params-Reads segments (a ∷ path) h = match_params_sound segments a path h

lookup2-row :
    {H : Type 0} (method p : Str) (e : RouteEntry H) (table : Map (RouteEntry H))
    (routes : Map (Map (RouteEntry H)))
    → lookup method routes ≡ some table
    → lookup p table ≡ some e
    → lookup2 method p routes ≡ some e
unfolding lookup2 row
lookup2-row method p e table routes known found = ground (arith, known, found)

path_value-indexed :
    (std : Str → Str) (index : PatternIndex) (p path name : Str) (segments : List RouteSegment)
    → lookup p index ≡ some segments
    → match_params segments (normalize_path path) ≡ true
    → path_value std index p path name ≡ param_value segments (normalize_path path) name
unfolding path_value
path_value-indexed std index p path name segments here hit = rw (here, path_value) (rw hit)

module _ {H : Type 0} (order : Map (RouteEntry H) → List (Str × RouteEntry H))
    (iterates : IsIteration order) (std : Str → Str) where
  routed-Reads :
      (r : Router H) (index : PatternIndex) (method path p : Str) (e : RouteEntry H)
      → IsRegistered r index
      → match_route order r method (normalize_path path) ≡ some (e, p)
      → e.has_params ≡ true
      → p ≢ normalize_path path
      → (segments : List RouteSegment) × (param_segments p ≡ some segments)
        × Reads segments (normalize_path path) (path_value std index p path)
  unfolding match_route
  routed-Reads r index method path p e ok routed t other =
      elim (Option-cases (lookup method r.routes)) [
        | inl gone ↦ absurd (ground (arith, gone, routed))
        | inr (table, known) ↦
            let (m, chosen) =
              subst (Answer (normalize_path path) table) routed
                (match_route-Answer order iterates r method (normalize_path path) table known) in
            let hit = chosen-match_params (normalize_path path) table p e chosen t other in
            let found = lookup_of_mem p e table (ok.tables method table known) m in
            let here =
              ok.entries method p e (lookup2-row method p e table r.routes known found) t in
            let (values, match, reads) = match_params-Reads e.segments (normalize_path path) hit in
            (
              e.segments,
              ok.indexed p e.segments here,
              (
                values,
                match,
                λ name. path_value-indexed std index p path name e.segments here hit ∙ reads name,
              ),
            )
      ]

  -- On a new router that any calls have set up, from an empty index of patterns, when matchRoute answers
  -- a request with a parameter route and the path is not the text of the pattern itself, PathValue under the pattern that it answers with
  -- reads the request's path as that pattern does: the path is what the pattern compiles to with a
  -- value for each parameter, and PathValue yields the first value of each name, or "" for a name
  -- that is no parameter; it does not ask net/http. The order in which maps are visited is arbitrary.
  pub path_value-routed :
      (cs : List (Setup H)) (method path p : Str) (e : RouteEntry H)
      → match_route order (setup (new_router, []) cs).0 method (normalize_path path) ≡ some (e, p)
      → e.has_params ≡ true
      → p ≢ normalize_path path
      → (segments : List RouteSegment) × (param_segments p ≡ some segments)
        × Reads segments (normalize_path path) (path_value std (setup (new_router, []) cs).1 p path)
  path_value-routed cs method path p e routed t other =
      routed-Reads (setup (new_router, []) cs).0 (setup (new_router, []) cs).1 method path p e
        (new_router-IsRegistered cs) routed t other
