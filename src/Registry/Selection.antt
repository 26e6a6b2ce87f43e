-- ===== src/Registry/Selection.antt =====
-- Which upstream a request goes to: SelectUpstream, PickUpstream, PickUpstreamForRoute and
-- ResolveRouteTarget of pkg/runtime/upstream.go.
use mathlib.Core.List.{Memᴰ}
use fgoths_framework.Prelude.{
  ◌≡◌, ◌≢◌, ◌⊎◌, inl, inr, refl, subst, true, false, List, [], ◌∷◌, some, arith, is_some, is_empty,
  map, Bool-cases, Option-cases, All, Visits,
}
use fgoths_framework.Prelude.Int.{ℤ, pos, ◌≤ℤ◌, max_int64}
use fgoths_framework.Prelude.Text.{Str, trim_space}
use fgoths_framework.Prelude.Maps.{Map, lookup, mem_of_lookup, lookup_of_mem, DistinctKeys}
use fgoths_framework.Registry.State.{RouteConfig, UpstreamConfig, RouteRegistry}
use fgoths_framework.Registry.Shape.{Stored, IsUpstream}
use fgoths_framework.Registry.Upstreams.{
  select_upstream, select_from, usable, fall_back, total_weight, pick_weighted_upstream, pool_for,
  in_pool, pick_upstream, first_service, pick_named, pick_for_route, resolve_route_target,
}
use fgoths_framework.Registry.Weights.{
  IsWeighted, weight_sum, total_weight-positive, pick_weighted_upstream-mem,
  pick_weighted_upstream-some,
}
use fgoths_framework.Registry.Pool.{mem-keep, mem-entries, keep-mem, entries-mem, All-mem}

-- An upstream in use, and how `name` leads to it.
pub record IsSelected (r : RouteRegistry) (name : Str) (up : UpstreamConfig) : Type 0 where
  pub active : up.enabled ≡ true
  pub up_now : up.healthy ≡ true
  pub from :
      (lookup (trim_space name) r.upstreams ≡ some up)
      ⊎ ((named : UpstreamConfig) × (lookup (trim_space name) r.upstreams ≡ some named)
          × (named.healthy ≡ false)
          × (lookup named.fallback r.upstreams ≡ some up))

select_from-IsSelected :
    (r : RouteRegistry) (name : Str) (named up : UpstreamConfig)
    → lookup (trim_space name) r.upstreams ≡ some named
    → select_from named r ≡ some up
    → IsSelected r name up
unfolding select_from fall_back usable
select_from-IsSelected r name named up h e = elim (Bool-cases named.healthy) [
  | inl well ↦
      let same : named ≡ up = ground arith in
      record {
        active = subst (λ u. u.enabled ≡ true) same (ground arith);
        up_now = subst (λ u. u.healthy ≡ true) same well;
        from = inl (subst (λ u. lookup (trim_space name) r.upstreams ≡ some u) same h);
      }
  | inr ill ↦ elim (Option-cases (lookup named.fallback r.upstreams)) [
    | inl gone ↦ absurd (ground arith)
    | inr (fb, there) ↦
        let same : fb ≡ up = ground arith in
        record {
          active = subst (λ u. u.enabled ≡ true) same (ground arith);
          up_now = subst (λ u. u.healthy ≡ true) same (ground arith);
          from =
              inr
                (named, h, ill, subst (λ u. lookup named.fallback r.upstreams ≡ some u) same there);
        }
  ]
]

-- What SelectUpstream returns is enabled and healthy, and it is the upstream asked for or, where that
-- one is unhealthy, the upstream it names as its fallback.
select_upstream-IsSelected :
    (name : Str) (r : RouteRegistry) (up : UpstreamConfig)
    → select_upstream name r ≡ some up
    → IsSelected r name up
unfolding select_upstream
select_upstream-IsSelected name r up e =
    elim (Option-cases (lookup (trim_space name) r.upstreams)) [
      | inl gone ↦ absurd (ground arith)
      | inr (named, h) ↦ select_from-IsSelected r name named up h (ground arith)
    ]

-- `order` visits the entries of the map, each at least once.
abbrev pub IsIteration : (Map UpstreamConfig → List (Str × UpstreamConfig)) → Type 0
IsIteration order = (m : Map UpstreamConfig) → Visits (order m) m

module _ (order : Map UpstreamConfig → List (Str × UpstreamConfig)) (iterates : IsIteration order)
    (random : ℤ → ℤ) where
  -- A registered upstream that may serve.
  pub record IsPicked (r : RouteRegistry) (service : Str) (up : UpstreamConfig) : Type 0 where
    pub member : (k : Str) × Memᴰ (k, up) r.upstreams
    pub test : in_pool (trim_space service) up ≡ true

  pool_for-mem :
      (service : Str) (r : RouteRegistry) (up : UpstreamConfig)
      → Memᴰ up (pool_for order random service r)
      → (in_pool service up ≡ true) × ((k : Str) × Memᴰ (k, up) r.upstreams)
  unfolding pool_for
  pool_for-mem service r up m =
      let (test, there) = mem-keep (in_pool service) (map (λ x. x.1) (order r.upstreams)) up m in
      let (k, entry) = mem-entries (order r.upstreams) up there in
      (test, (k, (iterates r.upstreams (k, up)).0 entry))

  pick_upstream-IsPicked :
      (service : Str) (r : RouteRegistry) (up : UpstreamConfig)
      → pick_upstream order random service r ≡ some up
      → IsPicked r service up
  unfolding pick_upstream
  pick_upstream-IsPicked service r up e =
      let pool = pool_for order random (trim_space service) r in
      let (test, member) =
        pool_for-mem (trim_space service) r up
          (pick_weighted_upstream-mem pool (random (total_weight pool)) up (ground arith)) in
      record { member = member; test = test }

  pool_for-IsWeighted :
      (service : Str) (r : RouteRegistry)
      → DistinctKeys r.upstreams
      → Stored IsUpstream r.upstreams
      → All IsWeighted (pool_for order random service r)
  pool_for-IsWeighted service r distinct stored =
      All-mem IsWeighted (pool_for order random service r) (λ up m.
        let (test, (k, there)) = pool_for-mem service r up m in
        (stored k up (lookup_of_mem k up r.upstreams distinct there)).weighted)

  nonempty-pick :
      (pool : List UpstreamConfig) (up : UpstreamConfig)
      → Memᴰ up pool
      → All IsWeighted pool
      → (is_empty pool ≡ false)
        × (weight_sum pool ≤ℤ max_int64 → pos 1 ≤ℤ total_weight pool)
        × (is_some (pick_weighted_upstream pool (random (total_weight pool))) ≡ true)
  nonempty-pick [] up m h = elim m [ ]
  nonempty-pick (u ∷ pool) up m h = (
    refl,
    total_weight-positive u pool h,
    pick_weighted_upstream-some u pool (random (total_weight (u ∷ pool))),
  )

  -- If no name stands twice among the upstreams and each is well formed, one of them may serve the
  -- service, and the exact sum of the weights of those that may fits in an `int`, then PickUpstream
  -- answers, whatever the iteration order and the random number, and the number it draws is below a
  -- positive bound, so that rand.Intn does not panic.
  pub pick_upstream_answers :
      (service : Str) (r : RouteRegistry) (k : Str) (up : UpstreamConfig)
      → DistinctKeys r.upstreams
      → Stored IsUpstream r.upstreams
      → Memᴰ (k, up) r.upstreams
      → in_pool (trim_space service) up ≡ true
      → weight_sum (pool_for order random (trim_space service) r) ≤ℤ max_int64
      → (is_some (pick_upstream order random service r) ≡ true)
        × (pos 1 ≤ℤ total_weight (pool_for order random (trim_space service) r))
  unfolding pick_upstream pool_for
  pick_upstream_answers service r k up distinct stored m test small =
      let pool = pool_for order random (trim_space service) r in
      let here =
        keep-mem (in_pool (trim_space service)) (map (λ x. x.1) (order r.upstreams)) up
          (entries-mem (order r.upstreams) k up ((iterates r.upstreams (k, up)).1 m)) test in
      let (full, bound, picks) =
        nonempty-pick pool up here (pool_for-IsWeighted (trim_space service) r distinct stored) in
      (ground arith, bound small)

  -- A registered upstream, enabled and healthy.
  pub IsServing : RouteRegistry → UpstreamConfig → Type 0
  IsServing r up =
      (up.enabled ≡ true) × (up.healthy ≡ true) × ((k : Str) × Memᴰ (k, up) r.upstreams)

  picked-IsServing :
      (service : Str) (r : RouteRegistry) (up : UpstreamConfig)
      → pick_upstream order random service r ≡ some up
      → IsServing r up
  unfolding IsServing in_pool
  picked-IsServing service r up e =
      let picked = pick_upstream-IsPicked service r up e in
      let test = picked.test in (ground arith, ground arith, picked.member)

  selected-IsServing :
      (name : Str) (r : RouteRegistry) (up : UpstreamConfig)
      → select_upstream name r ≡ some up
      → IsServing r up
  unfolding IsServing
  selected-IsServing name r up e =
      let selected = select_upstream-IsSelected name r up e in
      (
        selected.active,
        selected.up_now,
        (elim selected.from [
          | inl h ↦ (trim_space name, mem_of_lookup (trim_space name) up r.upstreams h)
          | inr (named, _, _, h) ↦ (named.fallback, mem_of_lookup named.fallback up r.upstreams h)
        ]),
      )

  first_service-IsServing :
      (name service : Str) (more : List Str) (r : RouteRegistry) (up : UpstreamConfig)
      → first_service order random name service more r ≡ some up
      → IsServing r up
  unfolding first_service
  first_service-IsServing name service more r up e =
      elim (Option-cases (pick_upstream order random service r)) [
        | inl none_there ↦ selected-IsServing name r up (ground arith)
        | inr (u, h) ↦ picked-IsServing service r up (ground arith)
      ]

  pick_named-IsServing :
      (name : Str) (services : List Str) (r : RouteRegistry) (up : UpstreamConfig)
      → pick_named order random name services r ≡ some up
      → IsServing r up
  unfolding pick_named
  pick_named-IsServing name [] r up e = selected-IsServing name r up e
  pick_named-IsServing name (service ∷ more) r up e =
      first_service-IsServing name service more r up e

  pick_for_route-IsServing :
      (name : Str) (r : RouteRegistry) (up : UpstreamConfig)
      → pick_for_route order random name r ≡ some up
      → IsServing r up
  unfolding pick_for_route
  pick_for_route-IsServing name r up e =
      elim (Option-cases (lookup (trim_space name) r.upstreams)) [
        | inl gone ↦ absurd (ground arith)
        | inr (named, h) ↦ pick_named-IsServing name named.services r up (ground arith)
      ]

  -- Where a request of a route goes: to the upstream that the route names, or else to its target.
  pub data IsTarget (r : RouteRegistry) (route : RouteConfig) (target : Str) : Type 0 where
    through :
        (up : UpstreamConfig)
        → route.upstream ≢ []
        → IsServing r up
        → up.target ≡ target
        → IsTarget r route target
    direct : route.upstream ≡ [] → route.target ≡ target → target ≢ [] → IsTarget r route target

  -- If ResolveRouteTarget answers, the route is registered; a route with an upstream is sent to the
  -- target of a registered upstream that is enabled and healthy, and any other to its own target,
  -- which is not empty.
  pub resolve_route_target-IsTarget :
      (name : Str) (r : RouteRegistry) (target : Str)
      → resolve_route_target order random name r ≡ some target
      → (route : RouteConfig) × (lookup (trim_space name) r.routes ≡ some route)
        × IsTarget r route target
  unfolding resolve_route_target
  resolve_route_target-IsTarget name r target e =
      elim (Option-cases (lookup (trim_space name) r.routes)) [
        | inl gone ↦ absurd (ground arith)
        | inr (route, h) ↦ elim (Bool-cases (is_empty route.upstream)) [
          | inl without ↦
              (route, h, IsTarget.direct (ground arith) (ground arith) (λ q. ground arith))
          | inr with_upstream ↦ elim (Option-cases (pick_for_route order random route.upstream r)) [
            | inl nothing ↦ absurd (ground arith)
            | inr (up, k) ↦ (
              route,
              h,
              IsTarget.through up (λ q. ground arith)
                  (pick_for_route-IsServing route.upstream r up k) (ground arith),
            )
          ]
        ]
      ]
