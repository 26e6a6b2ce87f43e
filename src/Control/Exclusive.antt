-- ===== src/Control/Exclusive.antt =====
-- No request matches two patterns of the routing table (pkg/runtime/controlplane.go).
use mathlib.Core.List.{Memᴰ}
use fgoths_framework.Prelude.{
  ◌≡◌, refl, Bool, true, false, not, ◌&&◌, ◌||◌, inl, inr, List, [], ◌∷◌, none, some, is_some,
  arith, Option-cases, ap, ◌∙◌,
}
use fgoths_framework.Prelude.Text.{Str, str_eq, str_eq_iff, text_functions}
use fgoths_framework.Control.Routing.{
  ApiRoute, api_routing_table, is_param, match_route, dispatch, first_match,
}

-- Of two patterns at most one matches, by their lengths or by a place where both are literal.
abbrev pub apart : (p q : List Str) → Bool
apart [] [] = false
apart (s ∷ p) (t ∷ q) = (not (is_param s) && (not (is_param t) && not (str_eq s t))) || apart p q
apart [] (t ∷ q) = true
apart (s ∷ p) [] = true

match_route-apart :
    (p q parts : List Str)
    → apart p q ≡ true
    → is_some (match_route p parts) ≡ true
    → match_route q parts ≡ none
unfolding match_route
match_route-apart [] [] parts a m = cc
match_route-apart [] (t ∷ q) [] a m = refl
match_route-apart [] (t ∷ q) (x ∷ parts) a m = cc
match_route-apart (s ∷ p) [] [] a m = cc
match_route-apart (s ∷ p) [] (x ∷ parts) a m = refl
match_route-apart (s ∷ p) (t ∷ q) [] a m = cc
match_route-apart (s ∷ p) (t ∷ q) (x ∷ parts) a m =
    ground (arith, match_route-apart p q parts, str_eq_iff s x, str_eq_iff t x, str_eq_iff s t)

abbrev apart_from : ApiRoute → List ApiRoute → Bool
apart_from r [] = true
apart_from r (s ∷ rs) = apart r.segments s.segments && apart_from r rs

abbrev pub all_apart : List ApiRoute → Bool
all_apart [] = true
all_apart (r ∷ rs) = apart_from r rs && all_apart rs

api_routing_table-apart : all_apart api_routing_table ≡ true
unfolding text_functions api_routing_table is_param
api_routing_table-apart = refl

first_match-none :
    (parts : List Str) (r : ApiRoute) (rs : List ApiRoute)
    → apart_from r rs ≡ true
    → is_some (match_route r.segments parts) ≡ true
    → (s : ApiRoute) → Memᴰ s rs
    → match_route s.segments parts ≡ none
first_match-none parts r [] a m s t = elim t [ ]
first_match-none parts r (x ∷ rs) a m s (Memᴰ.head e) =
    ap (λ z. match_route z.segments parts) e
    ∙ match_route-apart r.segments x.segments parts (ground arith) m
first_match-none parts r (x ∷ rs) a m s (Memᴰ.tail t) =
    first_match-none parts r rs (ground arith) m s t

-- In a table whose patterns are apart the entry that matches decides, wherever it stands.
first_match-only :
    (method : Str) (parts params : List Str) (s : ApiRoute) (rs : List ApiRoute)
    → all_apart rs ≡ true
    → Memᴰ s rs
    → match_route s.segments parts ≡ some params
    → first_match method parts rs ≡ dispatch method s.methods params
unfolding first_match
first_match-only method parts params s [] a t m = elim t [ ]
first_match-only method parts params s (r ∷ rs) a (Memᴰ.head e) m = ground (
  arith,
  m,
  ap (λ z. match_route z.segments parts) e,
  ap (λ z. dispatch method z.methods params) e,
)
first_match-only method parts params s (r ∷ rs) a (Memᴰ.tail t) m =
    elim (Option-cases (match_route r.segments parts)) [
      | inl other ↦
          ground (arith, other, first_match-only method parts params s rs (ground arith) t m)
      | inr (ps, here) ↦
          let never = first_match-none parts r rs (ground arith) (ground (arith, here)) s t in
          absurd (ground (arith, never, m))
    ]

-- The order of the routing table does not matter: an entry of it whose pattern matches the path decides
-- about the request, wherever it stands in the table.
pub api_routing_table-only :
    (method : Str) (parts params : List Str) (s : ApiRoute)
    → Memᴰ s api_routing_table
    → match_route s.segments parts ≡ some params
    → first_match method parts api_routing_table ≡ dispatch method s.methods params
api_routing_table-only method parts params s t m =
    first_match-only method parts params s api_routing_table api_routing_table-apart t m
