-- ===== src/Router/Determinism.antt =====
-- When the choice of matchRoute (pkg/runtime/router.go) does not depend on Go's iteration order.
use mathlib.Core.List.{Memᴰ}
use mathlib.Core.Option.{some-injective}
use fgoths_framework.Prelude.{
  ℕ, ◌<◌, ◌≡◌, refl, sym, ◌∙◌, subst, List, Option, none, some, arith, ◌⊎◌, length,
}
use fgoths_framework.Prelude.Text.{Str}
use fgoths_framework.Prelude.Maps.{Map, lookup, DistinctKeys, lookup_of_mem}
use fgoths_framework.Router.Table.{RouteEntry, Router, match_route}
use fgoths_framework.Router.Priority.{IsParamHit, IsPrefixHit, Outranks}
use fgoths_framework.Router.Dispatch.{
  IsIteration, IsChosen, IsUnmatched, Answer, match_route-Answer,
}

-- No two patterns that match the path are alike in rank.
pub record NoTies {H : Type 0} (path : Str) (table : Map (RouteEntry H)) : Type 0 where
  pub params :
      (x y : Str × RouteEntry H)
      → Memᴰ x table
      → Memᴰ y table
      → IsParamHit path x
      → IsParamHit path y
      → x.1.literals ≡ y.1.literals
      → length x.0 ≡ length y.0
      → x.0 ≡ y.0
  pub prefix :
      (x y : Str × RouteEntry H)
      → Memᴰ x table
      → Memᴰ y table
      → IsPrefixHit path x
      → IsPrefixHit path y
      → length x.0 ≡ length y.0
      → x.0 ≡ y.0

equal_ranks :
    (a b c d : ℕ)
    → ¬ ((b < a) ⊎ ((a ≡ b) × (d < c)))
    → ¬ ((a < b) ⊎ ((b ≡ a) × (c < d)))
    → (b ≡ a) × (d ≡ c)
equal_ranks a b c d low high = let same : b ≡ a = grind arith in (same, grind arith)

module _ {H : Type 0} (path : Str) (table : Map (RouteEntry H)) (distinct : DistinctKeys table)
    (no_ties : NoTies path table) where
  -- An exact entry and a missing one exclude each other.
  exact_found :
      {p : Str} {e : RouteEntry H} → p ≡ path → Memᴰ (p, e) table → lookup path table ≡ none → ⊥
  exact_found {p} {e} same m missing =
      cc (subst (λ q. lookup q table ≡ some e) same (lookup_of_mem p e table distinct m), missing)

  chosen_unique :
      (p q : Str) (e f : RouteEntry H)
      → Memᴰ (p, e) table
      → Memᴰ (q, f) table
      → IsChosen path table p e
      → IsChosen path table q f
      → p ≡ q
  chosen_unique p q e f m n (IsChosen.exact a) (IsChosen.exact b) = a ∙ sym b
  chosen_unique p q e f m n (IsChosen.exact a) (IsChosen.by_params b _ _) =
      absurd (exact_found a m b)
  chosen_unique p q e f m n (IsChosen.exact a) (IsChosen.by_prefix b _ _ _) =
      absurd (exact_found a m b)
  chosen_unique p q e f m n (IsChosen.exact a) (IsChosen.by_root b _ _ _) =
      absurd (exact_found a m b)
  chosen_unique p q e f m n (IsChosen.by_params a _ _) (IsChosen.exact b) =
      absurd (exact_found b n a)
  chosen_unique p q e f m n (IsChosen.by_params a hit top) (IsChosen.by_params b hit' top') =
      let low : ¬ Outranks (q, f) (p, e) = top (q, f) n hit' in
      let high : ¬ Outranks (p, e) (q, f) = top' (p, e) m hit in
      let (literals, lengths) = equal_ranks f.literals e.literals (length q) (length p) low high in
      no_ties.params (p, e) (q, f) m n hit hit' literals lengths
  chosen_unique p q e f m n (IsChosen.by_params a hit _) (IsChosen.by_prefix b none_left _ _) =
      absurd (none_left (p, e) m hit)
  chosen_unique p q e f m n (IsChosen.by_params a hit _) (IsChosen.by_root b none_left _ _) =
      absurd (none_left (p, e) m hit)
  chosen_unique p q e f m n (IsChosen.by_prefix a _ _ _) (IsChosen.exact b) =
      absurd (exact_found b n a)
  chosen_unique p q e f m n (IsChosen.by_prefix a none_left _ _) (IsChosen.by_params b hit _) =
      absurd (none_left (q, f) n hit)
  chosen_unique p q e f m n (IsChosen.by_prefix a _ hit top) (IsChosen.by_prefix b _ hit' top') =
      no_ties.prefix (p, e) (q, f) m n hit hit'
        (same_length (top (q, f) n hit') (top' (p, e) m hit))
    where
      same_length : ¬ (length p < length q) → ¬ (length q < length p) → length p ≡ length q
      same_length low high = omega arith
  chosen_unique p q e f m n (IsChosen.by_prefix a _ hit _) (IsChosen.by_root b _ none_left _) =
      absurd (none_left (p, e) m hit)
  chosen_unique p q e f m n (IsChosen.by_root a _ _ _) (IsChosen.exact b) =
      absurd (exact_found b n a)
  chosen_unique p q e f m n (IsChosen.by_root a none_left _ _) (IsChosen.by_params b hit _) =
      absurd (none_left (q, f) n hit)
  chosen_unique p q e f m n (IsChosen.by_root a _ none_left _) (IsChosen.by_prefix b _ hit _) =
      absurd (none_left (q, f) n hit)
  chosen_unique p q e f m n (IsChosen.by_root _ _ _ r) (IsChosen.by_root _ _ _ r') =
      r.is_root ∙ sym r'.is_root

  chosen_unmatched :
      (p : Str) (e : RouteEntry H)
      → Memᴰ (p, e) table
      → IsChosen path table p e
      → IsUnmatched path table
      → ⊥
  chosen_unmatched p e m (IsChosen.exact a) u = exact_found a m u.not_exact
  chosen_unmatched p e m (IsChosen.by_params _ hit _) u = u.no_params (p, e) m hit
  chosen_unmatched p e m (IsChosen.by_prefix _ _ hit _) u = u.no_prefix (p, e) m hit
  chosen_unmatched p e m (IsChosen.by_root _ _ _ hit) u = u.no_root (p, e) m hit

  -- Two answers of the same table agree.
  answers_agree :
      (o o' : Option (RouteEntry H × Str)) → Answer path table o → Answer path table o' → o ≡ o'
  answers_agree none none u u' = refl
  answers_agree (some (e, p)) (some (e', p')) (m, c) (m', c') =
      let same = chosen_unique p p' e e' m m' c c' in
      let found : lookup p' table ≡ some e =
        subst (λ q. lookup q table ≡ some e) same (lookup_of_mem p e table distinct m) in
      let found' = lookup_of_mem p' e' table distinct m' in
      let entries : e ≡ e' = some-injective e e' (sym found ∙ found') in
      λ i. some (entries i, same i)
  answers_agree none (some (e, p)) u (m, c) = absurd (chosen_unmatched p e m c u)
  answers_agree (some (e, p)) none (m, c) u = absurd (chosen_unmatched p e m c u)

-- If no two matching patterns tie, every iteration order gives the same route.
pub match_route_deterministic :
    {H : Type 0} (order order' : Map (RouteEntry H) → List (Str × RouteEntry H)) (r : Router H)
    (method path : Str) (table : Map (RouteEntry H))
    → IsIteration order
    → IsIteration order'
    → lookup method r.routes ≡ some table
    → DistinctKeys table
    → NoTies path table
    → match_route order r method path ≡ match_route order' r method path
match_route_deterministic order order' r method path table it it' known distinct no_ties =
    answers_agree path table distinct no_ties _ _
      (match_route-Answer order it r method path table known)
      (match_route-Answer order' it' r method path table known)
