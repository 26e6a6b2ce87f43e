-- ===== src/Router/Dispatch.antt =====
-- The route that matchRoute and ServeHTTP (pkg/runtime/router.go) choose, for every iteration order.
use mathlib.Core.List.{Memᴰ, reverse_aux}
use fgoths_framework.Prelude.{
  ◌<◌, ◌≡◌, ◌⊎◌, refl, sym, subst, List, [], ◌∷◌, reverse, Option, none, some, inl, inr, length,
  All, Option-cases, Visits,
}
use fgoths_framework.Prelude.Text.{Str}
use fgoths_framework.Prelude.Maps.{Map, lookup, mem_of_lookup}
use fgoths_framework.Router.Table.{RouteEntry, Router, pick_best, match_route}
use fgoths_framework.Router.Priority.{
  IsParamHit, IsPrefixHit, IsRootHit, Outranks, ParamsBest, PrefixBest, RootBest, visit_all-BestOf,
}

abbrev pub IsIteration : {H : Type 0} → (Map (RouteEntry H) → List (Str × RouteEntry H)) → Type 0
IsIteration {H} order = (m : Map (RouteEntry H)) → Visits (order m) m

mem-reverse_aux_left :
    {A : Type 0} {a : A} (xs ys : List A) → Memᴰ a ys → Memᴰ a (reverse_aux xs ys)
mem-reverse_aux_left [] ys m = m
mem-reverse_aux_left (x ∷ xs) ys m = mem-reverse_aux_left xs (x ∷ ys) (Memᴰ.tail m)

mem-reverse_aux_right :
    {A : Type 0} {a : A} (xs ys : List A) → Memᴰ a xs → Memᴰ a (reverse_aux xs ys)
mem-reverse_aux_right [] ys m = elim m [ ]
mem-reverse_aux_right (x ∷ xs) ys (Memᴰ.head e) = mem-reverse_aux_left xs (x ∷ ys) (Memᴰ.head e)
mem-reverse_aux_right (x ∷ xs) ys (Memᴰ.tail m) = mem-reverse_aux_right xs (x ∷ ys) m

mem_of_mem-reverse_aux :
    {A : Type 0} {a : A} (xs ys : List A) → Memᴰ a (reverse_aux xs ys) → Memᴰ a xs ⊎ Memᴰ a ys
mem_of_mem-reverse_aux [] ys m = inr m
mem_of_mem-reverse_aux (x ∷ xs) ys m = elim (mem_of_mem-reverse_aux xs (x ∷ ys) m) [
  | inl here ↦ inl (Memᴰ.tail here)
  | inr (Memᴰ.head e) ↦ inl (Memᴰ.head e)
  | inr (Memᴰ.tail t) ↦ inr t
]

pub Visits-reverse : {A : Type 0} (m : List A) → Visits (reverse m) m
Visits-reverse m x = (back, mem-reverse_aux_right m [])
  where
    back : Memᴰ x (reverse m) → Memᴰ x m
    back k = elim (mem_of_mem-reverse_aux m [] k) [ inl i ↦ i | inr i ↦ elim i [ ] ]

All-mem : {A : Type 0} (P : A → Type 0) (xs : List A) {a : A} → All P xs → Memᴰ a xs → P a
All-mem P [] h m = elim m [ ]
All-mem P (x ∷ xs) h (Memᴰ.head e) = subst P (sym e) h.0
All-mem P (x ∷ xs) h (Memᴰ.tail m) = All-mem P xs h.1 m

-- Which entry of a method's routes answers a path: an exact one, else the parameter pattern of the
-- highest rank, else the longest prefix or wildcard, else the root.
pub data IsChosen {H : Type 0} (path : Str) (table : Map (RouteEntry H)) (p : Str)
    (e : RouteEntry H) : Type 0 where
  exact : p ≡ path → IsChosen path table p e
  by_params :
      lookup path table ≡ none
      → IsParamHit path (p, e)
      → ((x : Str × RouteEntry H) → Memᴰ x table → IsParamHit path x → ¬ Outranks x (p, e))
      → IsChosen path table p e
  by_prefix :
      lookup path table ≡ none
      → ((x : Str × RouteEntry H) → Memᴰ x table → ¬ IsParamHit path x)
      → IsPrefixHit path (p, e)
      → ((x : Str × RouteEntry H) → Memᴰ x table → IsPrefixHit path x → ¬ (length p < length x.0))
      → IsChosen path table p e
  by_root :
      lookup path table ≡ none
      → ((x : Str × RouteEntry H) → Memᴰ x table → ¬ IsParamHit path x)
      → ((x : Str × RouteEntry H) → Memᴰ x table → ¬ IsPrefixHit path x)
      → IsRootHit (p, e)
      → IsChosen path table p e

-- Nothing matches the path.
pub record IsUnmatched {H : Type 0} (path : Str) (table : Map (RouteEntry H)) : Type 0 where
  pub not_exact : lookup path table ≡ none
  pub no_params : (x : Str × RouteEntry H) → Memᴰ x table → ¬ IsParamHit path x
  pub no_prefix : (x : Str × RouteEntry H) → Memᴰ x table → ¬ IsPrefixHit path x
  pub no_root : (x : Str × RouteEntry H) → Memᴰ x table → ¬ IsRootHit x

-- What the result of the match says of the routes.
abbrev pub Answer : {H : Type 0} → Str → Map (RouteEntry H) → Option (RouteEntry H × Str) → Type 0
Answer path table none = IsUnmatched path table
Answer path table (some (e, p)) = Memᴰ (p, e) table × IsChosen path table p e

module _ {H : Type 0} (path : Str) (table visited : List (Str × RouteEntry H))
    (complete : Visits visited table) (missing : lookup path table ≡ none) where
  to_seen : {x : Str × RouteEntry H} → Memᴰ x table → Memᴰ x (reverse visited)
  to_seen {x} m = (Visits-reverse visited x).1 ((complete x).1 m)

  from_seen : {x : Str × RouteEntry H} → Memᴰ x (reverse visited) → Memᴰ x table
  from_seen {x} m = (complete x).0 ((Visits-reverse visited x).0 m)

  pick_best-Answer :
      (by_params by_prefix : Option (RouteEntry H × Str)) (by_root : Option (RouteEntry H))
      → ParamsBest path (reverse visited) by_params
      → PrefixBest path (reverse visited) by_prefix
      → RootBest (reverse visited) by_root
      → Answer path table
          (pick_best (record { by_params = by_params; by_prefix = by_prefix; by_root = by_root }))
  unfolding pick_best
  pick_best-Answer (some (e, p)) q r hp hq hr = (
    from_seen hp.0,
    IsChosen.by_params missing hp.1 (λ x m. All-mem _ (reverse visited) hp.2 (to_seen m)),
  )
  pick_best-Answer none (some (e, p)) r hp hq hr = (
    from_seen hq.0,
    IsChosen.by_prefix missing (λ x m. All-mem _ (reverse visited) hp (to_seen m)) hq.1
        (λ x m. All-mem _ (reverse visited) hq.2 (to_seen m)),
  )
  pick_best-Answer none none (some e) hp hq (p, m, hr) = (
    subst (λ s. Memᴰ (s, e) table) hr.is_root (from_seen m),
    IsChosen.by_root missing (λ x k. All-mem _ (reverse visited) hp (to_seen k))
        (λ x k. All-mem _ (reverse visited) hq (to_seen k))
        (record { no_params = hr.no_params; is_root = refl }),
  )
  pick_best-Answer none none none hp hq hr = record {
    not_exact = missing;
    no_params = λ x m. All-mem _ (reverse visited) hp (to_seen m);
    no_prefix = λ x m. All-mem _ (reverse visited) hq (to_seen m);
    no_root = λ x m. All-mem _ (reverse visited) hr (to_seen m);
  }

module _ {H : Type 0} (order : Map (RouteEntry H) → List (Str × RouteEntry H))
    (iterates : IsIteration order) where
  -- Whatever the order in which the map of a method's routes is visited, matchRoute answers with an
  -- entry of it: the one registered for the path itself, else a parameter pattern that matches the path
  -- and that no other such pattern outranks, else a longest matching prefix or wildcard, else the root;
  -- and it answers with nothing only if no entry matches in any of these ways.
  pub match_route-Answer :
      (r : Router H) (method path : Str) (table : Map (RouteEntry H))
      → lookup method r.routes ≡ some table
      → Answer path table (match_route order r method path)
  unfolding match_route
  match_route-Answer r method path table known = elim (Option-cases (lookup path table)) [
    | inl missing ↦
        let b = visit_all-BestOf path (order table) in
        rw (known, missing, match_route)
          (pick_best-Answer path table (order table) (iterates table) missing _ _ _ b.params
            b.prefix b.fallback)
    | inr (e, found) ↦
        rw (known, found, match_route) (mem_of_lookup path e table found, IsChosen.exact refl)
  ]
