-- ===== src/Router/Priority.antt =====
-- Which route the loop of `matchRoute` (pkg/runtime/router.go) picks, whatever the order in which Go
-- ranges over the map.
use mathlib.Core.List.{Memᴰ, reverse_aux}
use fgoths_framework.Prelude.{
  ◌<◌, ◌≡◌, ◌≢◌, refl, true, false, List, [], ◌∷◌, Option, none, some, arith, ◌⊎◌, inl, inr,
  reverse, length, All, Bool-cases, if_cases,
}
use fgoths_framework.Prelude.Text.{Str, str_eq, str_eq_iff}
use fgoths_framework.Router.Path.{root, route_matches}
use fgoths_framework.Router.Match.{match_params}
use fgoths_framework.Router.Table.{
  RouteEntry, Best, better_params, better_prefix, first_root, visit_params, visit_root,
  visit_prefix, visit_route, visit_routes, no_best,
}

-- The three ways in which a route can match a path.
pub record IsParamHit {H : Type 0} (path : Str) (x : Str × RouteEntry H) : Type 0 where
  pub has_params : x.1.has_params ≡ true
  pub matches : match_params x.1.segments path ≡ true

pub record IsPrefixHit {H : Type 0} (path : Str) (x : Str × RouteEntry H) : Type 0 where
  pub no_params : x.1.has_params ≡ false
  pub not_root : x.0 ≢ root
  pub matches : route_matches x.0 path ≡ true

pub record IsRootHit {H : Type 0} (x : Str × RouteEntry H) : Type 0 where
  pub no_params : x.1.has_params ≡ false
  pub is_root : x.0 ≡ root

-- More literal segments, or as many and a longer pattern.
abbrev pub Outranks : {H : Type 0} → Str × RouteEntry H → Str × RouteEntry H → Type 0
Outranks x y =
    (y.1.literals < x.1.literals) ⊎ ((x.1.literals ≡ y.1.literals) × (length y.0 < length x.0))

-- What the three variables of the loop mean for the routes visited so far.
abbrev pub ParamsBest :
    {H : Type 0} → Str → List (Str × RouteEntry H) → Option (RouteEntry H × Str) → Type 0
ParamsBest path seen none = All (λ x. ¬ IsParamHit path x) seen
ParamsBest path seen (some (e, p)) =
    Memᴰ (p, e) seen
    × IsParamHit path (p, e)
    × All (λ x. IsParamHit path x → ¬ Outranks x (p, e)) seen

abbrev pub PrefixBest :
    {H : Type 0} → Str → List (Str × RouteEntry H) → Option (RouteEntry H × Str) → Type 0
PrefixBest path seen none = All (λ x. ¬ IsPrefixHit path x) seen
PrefixBest path seen (some (e, p)) =
    Memᴰ (p, e) seen
    × IsPrefixHit path (p, e)
    × All (λ x. IsPrefixHit path x → ¬ (length p < length x.0)) seen

abbrev pub RootBest : {H : Type 0} → List (Str × RouteEntry H) → Option (RouteEntry H) → Type 0
RootBest seen none = All (λ x. ¬ IsRootHit x) seen
RootBest seen (some e) = (p : Str) × Memᴰ (p, e) seen × IsRootHit (p, e)

pub record BestOf {H : Type 0} (path : Str) (seen : List (Str × RouteEntry H)) (b : Best H)
    : Type 0 where
  pub params : ParamsBest path seen b.by_params
  pub prefix : PrefixBest path seen b.by_prefix
  pub fallback : RootBest seen b.by_root

All-map :
    {A : Type 0} {P Q : A → Type 0} (xs : List A) → ((x : A) → P x → Q x) → All P xs → All Q xs
All-map [] f h = tt
All-map (x ∷ xs) f h = (f x h.0, All-map xs f h.1)

module _ {H : Type 0} (path : Str) (seen : List (Str × RouteEntry H)) (p : Str)
    (e : RouteEntry H) where
  params_keep :
      (o : Option (RouteEntry H × Str))
      → ¬ IsParamHit path (p, e)
      → ParamsBest path seen o
      → ParamsBest path ((p, e) ∷ seen) o
  params_keep none miss h = (miss, h)
  params_keep (some (e', p')) miss h = (Memᴰ.tail h.0, h.1, ((λ hit. absurd (miss hit)), h.2))

  params_replace :
      (o : Option (RouteEntry H × Str))
      → IsParamHit path (p, e)
      → better_params o e p ≡ true
      → ParamsBest path seen o
      → ParamsBest path ((p, e) ∷ seen) (some (e, p))
  unfolding better_params
  params_replace none hit b h =
      (Memᴰ.head refl, hit, ((λ _ o. omega arith), All-map seen (λ x miss hx. absurd (miss hx)) h))
  params_replace (some (e', p')) hit b h = (
    Memᴰ.head refl,
    hit,
    ((λ _ o. omega arith), All-map seen (λ x top hx o. top hx (ground arith)) h.2),
  )

  params_refuse :
      (o : Option (RouteEntry H × Str))
      → better_params o e p ≡ false
      → ParamsBest path seen o
      → ParamsBest path ((p, e) ∷ seen) o
  unfolding better_params
  params_refuse none b h = cc
  params_refuse (some (e', p')) b h = (Memᴰ.tail h.0, h.1, ((λ _ o. ground arith), h.2))

  prefix_keep :
      (o : Option (RouteEntry H × Str))
      → ¬ IsPrefixHit path (p, e)
      → PrefixBest path seen o
      → PrefixBest path ((p, e) ∷ seen) o
  prefix_keep none miss h = (miss, h)
  prefix_keep (some (e', p')) miss h = (Memᴰ.tail h.0, h.1, ((λ hit. absurd (miss hit)), h.2))

  prefix_replace :
      (o : Option (RouteEntry H × Str))
      → IsPrefixHit path (p, e)
      → better_prefix o p ≡ true
      → PrefixBest path seen o
      → PrefixBest path ((p, e) ∷ seen) (some (e, p))
  unfolding better_prefix
  prefix_replace none hit b h =
      (Memᴰ.head refl, hit, ((λ _ o. omega arith), All-map seen (λ x miss hx. absurd (miss hx)) h))
  prefix_replace (some (e', p')) hit b h = (
    Memᴰ.head refl,
    hit,
    ((λ _ o. omega arith), All-map seen (λ x top hx o. top hx (ground arith)) h.2),
  )

  prefix_refuse :
      (o : Option (RouteEntry H × Str))
      → better_prefix o p ≡ false
      → PrefixBest path seen o
      → PrefixBest path ((p, e) ∷ seen) o
  unfolding better_prefix
  prefix_refuse none b h = cc
  prefix_refuse (some (e', p')) b h = (Memᴰ.tail h.0, h.1, ((λ _ o. ground arith), h.2))

  root_keep :
      (o : Option (RouteEntry H))
      → ¬ IsRootHit (p, e)
      → RootBest seen o
      → RootBest ((p, e) ∷ seen) o
  root_keep none miss h = (miss, h)
  root_keep (some e') miss (p', m, r) = (p', Memᴰ.tail m, r)

module _ {H : Type 0} (path : Str) (seen : List (Str × RouteEntry H)) (b : Best H) (p : Str)
    (e : RouteEntry H) (h : BestOf path seen b) where
  visit_params-BestOf : e.has_params ≡ true → BestOf path ((p, e) ∷ seen) (visit_params path b p e)
  unfolding visit_params
  visit_params-BestOf t = elim (Bool-cases (match_params e.segments path)) [
    | inr miss ↦
        rw (miss, visit_params)
          (record {
            params = params_keep path seen p e b.by_params (λ hit. cc (hit.matches)) h.params;
            prefix = prefix_keep path seen p e b.by_prefix (λ hit. cc (hit.no_params)) h.prefix;
            fallback = root_keep path seen p e b.by_root (λ hit. cc (hit.no_params)) h.fallback;
          })
    | inl hit ↦ elim (Bool-cases (better_params b.by_params e p)) [
      | inl win ↦
          rw (hit, win, visit_params)
            (record {
              params =
                  params_replace path seen p e b.by_params
                    (record { has_params = t; matches = hit }) win h.params;
              prefix = prefix_keep path seen p e b.by_prefix (λ hit'. cc (hit'.no_params)) h.prefix;
              fallback = root_keep path seen p e b.by_root (λ hit'. cc (hit'.no_params)) h.fallback;
            })
      | inr lose ↦
          rw (hit, lose, visit_params)
            (record {
              params = params_refuse path seen p e b.by_params lose h.params;
              prefix = prefix_keep path seen p e b.by_prefix (λ hit'. cc (hit'.no_params)) h.prefix;
              fallback = root_keep path seen p e b.by_root (λ hit'. cc (hit'.no_params)) h.fallback;
            })
    ]
  ]

  visit_prefix-BestOf :
      e.has_params ≡ false → p ≢ root → BestOf path ((p, e) ∷ seen) (visit_prefix path b p e)
  unfolding visit_prefix
  visit_prefix-BestOf t nr = elim (Bool-cases (route_matches p path)) [
    | inr miss ↦
        rw (miss, visit_prefix)
          (record {
            params = params_keep path seen p e b.by_params (λ hit. cc (hit.has_params)) h.params;
            prefix = prefix_keep path seen p e b.by_prefix (λ hit. cc (hit.matches)) h.prefix;
            fallback = root_keep path seen p e b.by_root (λ hit. nr hit.is_root) h.fallback;
          })
    | inl hit ↦ elim (Bool-cases (better_prefix b.by_prefix p)) [
      | inl win ↦
          rw (hit, win, visit_prefix)
            (record {
              params =
                  params_keep path seen p e b.by_params (λ hit'. cc (hit'.has_params)) h.params;
              prefix =
                  prefix_replace path seen p e b.by_prefix
                    (record { no_params = t; not_root = nr; matches = hit }) win h.prefix;
              fallback = root_keep path seen p e b.by_root (λ hit'. nr hit'.is_root) h.fallback;
            })
      | inr lose ↦
          rw (hit, lose, visit_prefix)
            (record {
              params =
                  params_keep path seen p e b.by_params (λ hit'. cc (hit'.has_params)) h.params;
              prefix = prefix_refuse path seen p e b.by_prefix lose h.prefix;
              fallback = root_keep path seen p e b.by_root (λ hit'. nr hit'.is_root) h.fallback;
            })
    ]
  ]

  first_root-RootBest :
      (o : Option (RouteEntry H))
      → e.has_params ≡ false
      → p ≡ root
      → RootBest seen o
      → RootBest ((p, e) ∷ seen) (first_root o e)
  unfolding first_root
  first_root-RootBest none t r k = (p, Memᴰ.head refl, record { no_params = t; is_root = r })
  first_root-RootBest (some e') t r (p', m, k) = (p', Memᴰ.tail m, k)

  visit_root-BestOf : e.has_params ≡ false → p ≡ root → BestOf path ((p, e) ∷ seen) (visit_root b e)
  unfolding visit_root
  visit_root-BestOf t r = record {
    params = params_keep path seen p e b.by_params (λ hit. cc (hit.has_params)) h.params;
    prefix = prefix_keep path seen p e b.by_prefix (λ hit. hit.not_root r) h.prefix;
    fallback = first_root-RootBest b.by_root t r h.fallback;
  }

  visit_route-BestOf : BestOf path ((p, e) ∷ seen) (visit_route path b (p, e))
  unfolding visit_route
  visit_route-BestOf =
      if_cases (BestOf path ((p, e) ∷ seen)) e.has_params _ _ visit_params-BestOf (λ plain.
        if_cases (BestOf path ((p, e) ∷ seen)) (str_eq p root) _ _
          (λ r. visit_root-BestOf plain ((str_eq_iff p root).0 r))
          (λ n. visit_prefix-BestOf plain (λ r. cc (n, (str_eq_iff p root).1 r))))

-- The loop keeps, over all the routes that it visits, what its variables mean.
visit_routes-BestOf :
    {H : Type 0} (path : Str) (seen xs : List (Str × RouteEntry H)) (b : Best H)
    → BestOf path seen b
    → BestOf path (reverse_aux xs seen) (visit_routes path b xs)
unfolding visit_routes
visit_routes-BestOf path seen [] b h = h
visit_routes-BestOf path seen ((p, e) ∷ xs) b h =
    visit_routes-BestOf path ((p, e) ∷ seen) xs _ (visit_route-BestOf path seen b p e h)

-- After the loop each variable holds a best match of its kind, and none if there is no match.
pub visit_all-BestOf :
    {H : Type 0} (path : Str) (xs : List (Str × RouteEntry H))
    → BestOf path (reverse xs) (visit_routes path no_best xs)
visit_all-BestOf path xs =
    visit_routes-BestOf path [] xs no_best (record { params = tt; prefix = tt; fallback = tt })
