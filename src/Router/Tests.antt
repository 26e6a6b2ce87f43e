-- ===== src/Router/Tests.antt =====
-- Runs of the router on small tables, and the theorems at concrete inputs.
use mathlib.Core.List.{Memᴰ}
use fgoths_framework.Prelude.{
  ℕ, ◌≡◌, ◌≢◌, arith, refl, true, List, [], ◌∷◌, Option, none, some, reverse, ap, subst, sym, ◌∙◌,
  ◌+◌, ◌*◌,
}
use fgoths_framework.Prelude.Text.{Str, str_eq_iff, codes, text_functions}
use fgoths_framework.Prelude.Maps.{Map, lookup, DistinctKeys, map_functions}
use fgoths_framework.Router.Path.{normalize_path, route_matches}
use fgoths_framework.Router.Pattern.{RouteSegment, lit, param, literal, whole, mixed}
use fgoths_framework.Router.Compile.{compile_pattern}
use fgoths_framework.Router.Match.{match_params, param_value}
use fgoths_framework.Router.Table.{
  RouteEntry, Router, PatternIndex, handle, use_middleware, new_router, match_route, serve_http,
  path_value, param_segments, visit_route,
}
use fgoths_framework.Router.Captures.{PathMatch, match_params_sound}
use fgoths_framework.Router.Dispatch.{IsIteration, Visits-reverse, Answer, match_route-Answer}
use fgoths_framework.Router.Priority.{IsParamHit, IsPrefixHit}
use mathlib.Core.Option.{get_or}
use fgoths_framework.Router.Determinism.{NoTies, match_route_deterministic}
use fgoths_framework.Router.Serve.{serve_http-handle}
use fgoths_framework.Router.Values.{Reads, path_value-routed}
use fgoths_framework.Router.Index.{Setup, handles, setup}

router : Unit {0}
unfolding text_functions map_functions compile_pattern normalize_path route_matches match_params
    param_value param_segments visit_route handle new_router use_middleware serve_http path_value
router = tt

compiled :
    compile_pattern (codes "/users/{id}/post-:n.json")
    ≡ some (
        literal (codes "users")
        ∷ whole (codes "id")
        ∷ mixed (lit (codes "post-") ∷ param (codes "n") ∷ lit (codes ".json") ∷ [])
        ∷ [])
unfolding router
compiled = refl

not_compiled : compile_pattern (codes "/users/{}/x") ≡ none
unfolding router
not_compiled = refl

abbrev calls : List (Setup ℕ)
calls =
    handles (codes "get") (codes "/users/{id}") (some 1)
    ∷ handles (codes "GET") (codes "/users/me/") (some 2)
    ∷ handles (codes "GET") (codes "/files/*") (some 3)
    ∷ handles (codes "GET") (codes "/") (some 4)
    ∷ []

abbrev small : Router ℕ × PatternIndex
small = setup (new_router, []) calls

abbrev in_order : Map (RouteEntry ℕ) → List (Str × RouteEntry ℕ)
in_order m = m

abbrev backwards : Map (RouteEntry ℕ) → List (Str × RouteEntry ℕ)
backwards m = reverse m

served : List (Option (ℕ × Str))
served =
    serve_http in_order small.0 (codes "GET") (codes "/users/7")
    ∷ serve_http backwards small.0 (codes "GET") (codes "/users/me")
    ∷ serve_http in_order small.0 (codes "GET") (codes "/files/a/b")
    ∷ serve_http in_order small.0 (codes "GET") (codes "/zzz")
    ∷ serve_http in_order small.0 (codes "PUT") (codes "/users/7")
    ∷ []

served_values :
    served
    ≡ some (1, codes "/users/{id}")
      ∷ some (2, codes "/users/me")
      ∷ some (3, codes "/files/*")
      ∷ some (4, codes "/")
      ∷ none
      ∷ []
unfolding router served
served_values = refl

read_id :
    path_value (λ n. []) small.1 (codes "/users/{id}") (codes "/users/42/") (codes "id")
    ≡ codes "42"
unfolding router
read_id = refl

abbrev users : Str
users = codes "/users/{id}"

abbrev two_routes : Map (RouteEntry ℕ)
two_routes =
    (
      users,
      record {
        handler = 1;
        segments = literal (codes "users") ∷ whole (codes "id") ∷ [];
        has_params = true;
        literals = 1;
      },
    )
    ∷ (
      codes "/files/{x}",
      record {
        handler = 2;
        segments = literal (codes "files") ∷ whole (codes "x") ∷ [];
        has_params = true;
        literals = 1;
      },
    )
    ∷ []

abbrev two : Router ℕ
two = record { routes = (codes "GET", two_routes) ∷ []; middleware = [] }

abbrev asked : Str
asked = codes "/users/7"

in_order-IsIteration : IsIteration in_order
in_order-IsIteration m x = ((λ k. k), (λ k. k))

backwards-IsIteration : IsIteration backwards
backwards-IsIteration m = Visits-reverse m

known : lookup (codes "GET") two.routes ≡ some two_routes
unfolding router
known = refl

two-distinct : DistinctKeys two_routes
unfolding router
two-distinct = (refl, (refl, tt))

only_users : (x : Str × RouteEntry ℕ) → Memᴰ x two_routes → IsParamHit asked x → x.0 ≡ users
unfolding router
only_users x (Memᴰ.head e) hit = ap {B = Str} (λ y. y.0) e
only_users x (Memᴰ.tail (Memᴰ.head e)) hit = cc ((subst (IsParamHit asked) e hit).matches)
only_users x (Memᴰ.tail (Memᴰ.tail m)) hit = elim m [ ]

no_prefixes : (x : Str × RouteEntry ℕ) → Memᴰ x two_routes → IsPrefixHit asked x → ⊥
no_prefixes x (Memᴰ.head e) hit = cc ((subst (IsPrefixHit asked) e hit).no_params)
no_prefixes x (Memᴰ.tail (Memᴰ.head e)) hit = cc ((subst (IsPrefixHit asked) e hit).no_params)
no_prefixes x (Memᴰ.tail (Memᴰ.tail m)) hit = elim m [ ]

two-NoTies : NoTies asked two_routes
two-NoTies = record {
  params = λ x y m n hx hy l k. only_users x m hx ∙ sym (only_users y n hy);
  prefix = λ x y m n hx hy k. absurd (no_prefixes x m hx);
}

match_route-Answer_example : Answer asked two_routes (match_route backwards two (codes "GET") asked)
match_route-Answer_example =
    match_route-Answer backwards backwards-IsIteration two (codes "GET") asked two_routes known

match_route_deterministic_example :
    match_route in_order two (codes "GET") asked ≡ match_route backwards two (codes "GET") asked
match_route_deterministic_example =
    match_route_deterministic in_order backwards two (codes "GET") asked two_routes
      in_order-IsIteration backwards-IsIteration known two-distinct two-NoTies

serve_http-handle_example :
    serve_http in_order
      (use_middleware
        (handle two [] (codes "get") (codes "a/") (some 5)).0
        ((λ n. n + 10) ∷ (λ n. n * 2) ∷ []))
      (codes "get")
      (codes "a/")
    ≡ some (20, codes "/a")
unfolding router
serve_http-handle_example =
    serve_http-handle in_order two [] (codes "get") (codes "a/") 5
      ((λ n. n + 10) ∷ (λ n. n * 2) ∷ [])

abbrev users_entry : RouteEntry ℕ
users_entry = record {
  handler = 1;
  segments = literal (codes "users") ∷ whole (codes "id") ∷ [];
  has_params = true;
  literals = 1;
}

not_asked : users ≢ asked
unfolding router
not_asked e = ground (arith, (str_eq_iff users asked).1 e)

path_value-routed_example :
    (segments : List RouteSegment) × (param_segments users ≡ some segments)
    × Reads segments (normalize_path asked) (path_value (λ n. []) small.1 users asked)
unfolding router
path_value-routed_example =
    path_value-routed backwards backwards-IsIteration (λ n. []) calls (codes "GET") asked users
      users_entry refl refl not_asked

read_seven : path_value (λ n. []) small.1 users asked (codes "id") ≡ codes "7"
unfolding router
read_seven = refl

match_params_sound_example :
    (values : Map Str) × PathMatch
      (literal (codes "users") ∷ whole (codes "id") ∷ [])
      (codes "users/7")
      values
    × ((name : Str)
        → param_value (literal (codes "users") ∷ whole (codes "id") ∷ []) asked name
          ≡ get_or (lookup name values) [])
unfolding router
match_params_sound_example =
    match_params_sound (literal (codes "users") ∷ whole (codes "id") ∷ []) b'/' (codes "users/7")
      refl

-- A one-letter route and a wildcard beside it have patterns of one length: on a path below both, the
-- answer is the one that the map yields first.
abbrev tied : Router ℕ × PatternIndex
tied =
    setup (new_router, [])
      (handles (codes "GET") (codes "/a/*") (some 1)
        ∷ handles (codes "GET") (codes "/a/b") (some 2)
        ∷ [])

tied_routes :
    (serve_http in_order tied.0 (codes "GET") (codes "/a/b/c") ≡ some (1, codes "/a/*"))
    × (serve_http backwards tied.0 (codes "GET") (codes "/a/b/c") ≡ some (2, codes "/a/b"))
unfolding router
tied_routes = (refl, refl)
