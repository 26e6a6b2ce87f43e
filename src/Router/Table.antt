-- ===== src/Router/Table.antt =====
-- The Router record, Handle, Any, Use, matchRoute, ServeHTTP, the index of parameter patterns and
-- PathValue of pkg/runtime/router.go. A handler is a value of a type `H` and a middleware a function
-- on it. Go ranges over a map in an order of its own, which is the argument `order`.
use mathlib.Core.Option
use fgoths_framework.Prelude.{
  ℕ, suc, Bool, true, false, ◌&&◌, ◌||◌, ◌==◌, ltb, List, [], ◌∷◌, ◌++◌, reverse, Option, none,
  some, if◌then◌else◌, length,
}
use fgoths_framework.Prelude.Text.{Str, codes, str_eq, has_suffix, to_upper}
use fgoths_framework.Prelude.Maps.{Map, lookup, insert, insert2}
use fgoths_framework.Router.Path.{root, normalize_path, route_matches}
use fgoths_framework.Router.Pattern.{RouteSegment, literal, whole, mixed}
use fgoths_framework.Router.Compile.{compile_pattern}
use fgoths_framework.Router.Match.{match_params, param_value}

pub record RouteEntry (H : Type 0) : Type 0 where
  pub handler : H
  pub segments : List RouteSegment
  pub has_params : Bool
  pub literals : ℕ

pub record Router (H : Type 0) : Type 0 where
  pub routes : Map (Map (RouteEntry H))
  pub middleware : List (H → H)

abbrev pub PatternIndex : Type 0
PatternIndex = Map (List RouteSegment)

unfoldable pub count_literals : List RouteSegment → ℕ
count_literals [] = 0
count_literals (whole _ ∷ ss) = count_literals ss
count_literals (literal _ ∷ ss) = suc (count_literals ss)
count_literals (mixed _ ∷ ss) = suc (count_literals ss)

abbrev pub wildcard_suffix : Str
wildcard_suffix = codes "/*"

-- The segments by which a registered path is matched, if it has parameters.
unfoldable pub param_segments : Str → Option (List RouteSegment)
param_segments path = if has_suffix path wildcard_suffix then none else compile_pattern path

-- An entry that is in the index stays as it is.
unfoldable pub index_param_pattern : Str → List RouteSegment → PatternIndex → PatternIndex
index_param_pattern pattern segments index = elim (lookup pattern index) [
  | none ↦ insert pattern segments index
  | some _ ↦ index
]

abbrev pub methods : List Str
methods =
    codes "GET"
    ∷ codes "POST"
    ∷ codes "PUT"
    ∷ codes "PATCH"
    ∷ codes "DELETE"
    ∷ codes "HEAD"
    ∷ codes "OPTIONS"
    ∷ []

unfoldable pub index_path : Str → PatternIndex → PatternIndex
unfolding index_param_pattern
index_path path index = elim (param_segments path) [
  | none ↦ index
  | some segments ↦ index_param_pattern path segments index
]

-- The variables of the loop of `matchRoute`.
pub record Best (H : Type 0) : Type 0 where
  pub by_params : Option (RouteEntry H × Str)
  pub by_prefix : Option (RouteEntry H × Str)
  pub by_root : Option (RouteEntry H)

module _ {H : Type 0} where
  unfoldable pub new_router : Router H
  new_router = record { routes = []; middleware = [] }

  unfoldable pub use_middleware : Router H → List (H → H) → Router H
  use_middleware r mws = record r { middleware = r.middleware ++ mws }

  unfoldable pub make_entry : Str → H → RouteEntry H
  unfolding count_literals param_segments
  make_entry path h = elim (param_segments path) [
    | none ↦ record { handler = h; segments = []; has_params = false; literals = 0 }
    | some segments ↦ record {
      handler = h;
      segments = segments;
      has_params = true;
      literals = count_literals segments;
    }
  ]

  -- A nil handler registers nothing.
  unfoldable pub handle : Router H → PatternIndex → Str → Str → Option H → Router H × PatternIndex
  unfolding make_entry index_path
  handle r index method path none = (r, index)
  handle r index method path (some h) =
      let p = normalize_path path in
      (
        record r { routes = insert2 (to_upper method) p (make_entry p h) r.routes },
        index_path p index,
      )

  unfoldable pub handle_all :
      Router H → PatternIndex → List Str → Str → Option H → Router H × PatternIndex
  handle_all r index [] path h = (r, index)
  handle_all r index (method ∷ ms) path h =
      let (r', index') = handle r index method path h in handle_all r' index' ms path h

  -- `Any`
  unfoldable pub handle_any : Router H → PatternIndex → Str → Option H → Router H × PatternIndex
  unfolding handle_all
  handle_any r index path h = handle_all r index methods path h

  unfoldable pub better_params : Option (RouteEntry H × Str) → RouteEntry H → Str → Bool
  better_params none entry pattern = true
  better_params (some (e, p)) entry pattern =
      ltb e.literals entry.literals
      || (entry.literals == e.literals && ltb (length p) (length pattern))

  unfoldable pub better_prefix : Option (RouteEntry H × Str) → Str → Bool
  better_prefix none pattern = true
  better_prefix (some (e, p)) pattern = ltb (length p) (length pattern)

  unfoldable pub first_root : Option (RouteEntry H) → RouteEntry H → Option (RouteEntry H)
  first_root none entry = some entry
  first_root (some e) entry = some e

  -- The three cases of the loop's switch.
  unfoldable pub visit_params : Str → Best H → Str → RouteEntry H → Best H
  unfolding better_params
  visit_params path b pattern entry =
      if match_params entry.segments path
      then (if better_params b.by_params entry pattern
          then record b { by_params = some (entry, pattern) }
          else b)
      else b

  unfoldable pub visit_root : Best H → RouteEntry H → Best H
  unfolding first_root
  visit_root b entry = record b { by_root = first_root b.by_root entry }

  unfoldable pub visit_prefix : Str → Best H → Str → RouteEntry H → Best H
  unfolding better_prefix
  visit_prefix path b pattern entry =
      if route_matches pattern path
      then (if better_prefix b.by_prefix pattern
          then record b { by_prefix = some (entry, pattern) }
          else b)
      else b

  unfoldable pub visit_route : Str → Best H → Str × RouteEntry H → Best H
  unfolding visit_params visit_root visit_prefix
  visit_route path b (pattern, entry) =
      if entry.has_params
      then visit_params path b pattern entry
      else if str_eq pattern root
      then visit_root b entry
      else visit_prefix path b pattern entry

  unfoldable pub visit_routes : Str → Best H → List (Str × RouteEntry H) → Best H
  visit_routes path b [] = b
  visit_routes path b (x ∷ xs) = visit_routes path (visit_route path b x) xs

  unfoldable pub pick_best : Best H → Option (RouteEntry H × Str)
  pick_best b = elim b.by_params [
    | some x ↦ some x
    | none ↦ elim b.by_prefix [ some x ↦ some x | none ↦ Option.map (λ e. (e, root)) b.by_root ]
  ]

  abbrev pub no_best : Best H
  no_best = record { by_params = none; by_prefix = none; by_root = none }

  unfoldable pub match_route :
      (Map (RouteEntry H) → List (Str × RouteEntry H))
      → Router H
      → Str
      → Str
      → Option (RouteEntry H × Str)
  unfolding visit_routes pick_best
  match_route order r method path = elim (lookup method r.routes) [
    | none ↦ none
    | some table ↦ elim (lookup path table) [
      | some entry ↦ some (entry, path)
      | none ↦ pick_best (visit_routes path no_best (order table))
    ]
  ]

  unfoldable pub wrap_all : List (H → H) → H → H
  wrap_all [] h = h
  wrap_all (m ∷ ms) h = wrap_all ms (m h)

  -- The loop from the last middleware down to the first.
  unfoldable pub wrap : List (H → H) → H → H
  unfolding wrap_all
  wrap mws h = wrap_all (reverse mws) h

  -- The handler that runs and the pattern left in the request, or `none` for a 404.
  unfoldable pub serve_http :
      (Map (RouteEntry H) → List (Str × RouteEntry H)) → Router H → Str → Str → Option (H × Str)
  unfolding match_route wrap
  serve_http order r method path =
      Option.map (λ (x : RouteEntry H × Str). (wrap r.middleware x.0.handler, x.1))
        (match_route order r (to_upper method) (normalize_path path))

-- `PathValue` on a request with this pattern and path. `std` is net/http's Request.PathValue, which
-- answers for patterns that no Router registered.
unfoldable pub path_value : (Str → Str) → PatternIndex → Str → Str → Str → Str
path_value std index pattern path name = elim (lookup pattern index) [
  | none ↦ std name
  | some segments ↦
      if match_params segments (normalize_path path)
      then param_value segments (normalize_path path) name
      else []
]
