-- ===== src/Plans/Removed.antt =====
-- Routes that a diff leaves out (pkg/runtime/governance.go).
use mathlib.Core.List.{Memᴰ}
use fgoths_framework.Prelude.{
  ◌≡◌, ◌≢◌, refl, true, false, List, [], ◌∷◌, some, All, arith, ap, sym, ◌∙◌,
}
use fgoths_framework.Prelude.Text.{Str, str_eq_iff}
use fgoths_framework.Prelude.Maps.{Map, lookup, insert, lookup-insert}
use fgoths_framework.Registry.State.{RouteConfig}
use fgoths_framework.Plans.Diff.{
  RouteRegistrySnapshot, index_routes, is_same, route_changes, build_config_diff,
}

abbrev pub DistinctNames : List RouteConfig → Type 0
DistinctNames [] = Unit
DistinctNames (r ∷ rs) = All (λ s. s.name ≢ r.name) rs × DistinctNames rs

index_routes-other :
    (name : Str) (rs : List RouteConfig) (m : Map RouteConfig)
    → All (λ s. s.name ≢ name) rs
    → lookup name (index_routes rs m) ≡ lookup name m
unfolding index_routes
index_routes-other name [] m h = refl
index_routes-other name (r ∷ rs) m h =
    index_routes-other name rs (insert r.name r m) h.1
    ∙ ground (arith, lookup-insert r.name name r m, str_eq_iff r.name name, h.0)

index_routes-mem :
    (r : RouteConfig) (rs : List RouteConfig) (m : Map RouteConfig)
    → DistinctNames rs
    → Memᴰ r rs
    → lookup r.name (index_routes rs m) ≡ some r
unfolding index_routes
index_routes-mem r [] m d t = elim t [ ]
index_routes-mem r (s ∷ rs) m d (Memᴰ.head e) =
    ap (λ x. lookup x.name (index_routes rs (insert s.name s m))) e
    ∙ index_routes-other s.name rs (insert s.name s m) d.0
    ∙ ground (arith, lookup-insert s.name s.name s m, str_eq_iff s.name s.name)
    ∙ ap some (sym e)
index_routes-mem r (s ∷ rs) m d (Memᴰ.tail t) = index_routes-mem r rs (insert s.name s m) d.1 t

is_same_self : (r : RouteConfig) → is_same (some r) r ≡ true
unfolding is_same
is_same_self r = ground (arith, str_eq_iff r.target r.target)

route_changes-same :
    (m : Map RouteConfig) (rs : List RouteConfig)
    → All (λ r. lookup r.name m ≡ some r) rs
    → route_changes m rs ≡ []
unfolding route_changes
route_changes-same m [] h = refl
route_changes-same m (r ∷ rs) h =
    ground (arith, h.0, is_same_self r, ap (λ o. is_same o r) h.0, route_changes-same m rs h.1)

-- A change that only removes routes, or reorders them, is reported as no change: if the names of the
-- routes before are distinct and every route after is one of them, the diff has no changes.
pub build_config_diff-removed :
    (before after : RouteRegistrySnapshot)
    → DistinctNames before.routes
    → All (λ r. Memᴰ r before.routes) after.routes
    → build_config_diff before after ≡ record { has_changes = false; routes = [] }
unfolding build_config_diff
build_config_diff-removed before after d h =
    ground (
      arith,
      route_changes-same (index_routes before.routes []) after.routes (found after.routes h),
    )
  where
    found :
        (rs : List RouteConfig)
        → All (λ r. Memᴰ r before.routes) rs
        → All (λ r. lookup r.name (index_routes before.routes []) ≡ some r) rs
    found [] g = tt
    found (r ∷ rs) g = (index_routes-mem r before.routes [] d g.0, found rs g.1)
