-- ===== src/Prelude/Maps.antt =====
-- Go maps with string keys as association lists. The order of the list is one iteration order.
use mathlib.Core.Path.{◌≡◌, refl, ap}
use mathlib.Core.Bool.{◌&&◌}
use mathlib.Core.Logic.{inl, inr}
use mathlib.Core.Option.{Option, none, some}
use mathlib.Core.List.{List, [], ◌∷◌, Memᴰ}
use native.Mathlib.Omega.{arith}
use fgoths_framework.Prelude.Tests.{if◌then◌else◌, Bool-cases}
use fgoths_framework.Prelude.Text.{Str, str_eq, str_eq_iff}

abbrev pub Map {ℓ} : Type ℓ → Type ℓ
Map V = List (Str × V)

module _ {ℓ} {V : Type ℓ} where
  unfoldable pub lookup : Str → Map V → Option V
  lookup k [] = none
  lookup k ((j, v) ∷ m) = if str_eq j k then some v else lookup k m

  unfoldable pub insert : Str → V → Map V → Map V
  insert k v [] = (k, v) ∷ []
  insert k v ((j, w) ∷ m) = if str_eq j k then (k, v) ∷ m else (j, w) ∷ insert k v m

  pub lookup-insert :
      (k j : Str) (v : V) (m : Map V)
      → lookup j (insert k v m) ≡ (if str_eq k j then some v else lookup j m)
  unfolding lookup insert
  lookup-insert k j v [] = refl
  lookup-insert k j v ((i, w) ∷ m) =
      ground (arith, str_eq_iff k j, str_eq_iff i k, str_eq_iff i j, lookup-insert k j v m)

  pub lookup-insert_self : (k : Str) (v : V) (m : Map V) → lookup k (insert k v m) ≡ some v
  lookup-insert_self k v m = ground (arith, lookup-insert k k v m, str_eq_iff k k)

  pub insert-insert : (k : Str) (v w : V) (m : Map V) → insert k w (insert k v m) ≡ insert k w m
  unfolding insert
  insert-insert k v w [] = ground (arith, str_eq_iff k k)
  insert-insert k v w ((i, u) ∷ m) =
      ground (arith, str_eq_iff k k, str_eq_iff i k, insert-insert k v w m)

-- A map of maps, `m[a][b]`: reading a missing row is reading an empty map.
module _ {ℓ} {V : Type ℓ} where
  unfoldable pub row : Str → Map (Map V) → Map V
  row a m = elim (lookup a m) [ none ↦ [] | some inner ↦ inner ]

  unfoldable pub lookup2 : Str → Str → Map (Map V) → Option V
  unfolding row
  lookup2 a b m = lookup b (row a m)

  -- `if m[a] == nil { m[a] = make(...) }; m[a][b] = v`
  unfoldable pub insert2 : Str → Str → V → Map (Map V) → Map (Map V)
  unfolding row
  insert2 a b v m = insert a (insert b v (row a m)) m

  pub lookup2-insert2 :
      (a b c d : Str) (v : V) (m : Map (Map V))
      → lookup2 c d (insert2 a b v m) ≡ (if str_eq a c && str_eq b d then some v else lookup2 c d m)
  unfolding lookup2 insert2
  lookup2-insert2 a b c d v m = ground (
    arith,
    lookup-insert a c (insert b v (row a m)) m,
    lookup-insert b d v (row a m),
    str_eq_iff a c,
  )

-- No key stands twice, which is what makes the list a map.
module _ {ℓ} {V : Type ℓ} where
  abbrev pub DistinctKeys : Map V → Type ℓ
  DistinctKeys [] = Unit
  DistinctKeys ((k, v) ∷ m) = (lookup k m ≡ none) × DistinctKeys m

  pub insert-DistinctKeys :
      (k : Str) (v : V) (m : Map V) → DistinctKeys m → DistinctKeys (insert k v m)
  unfolding insert lookup
  insert-DistinctKeys k v [] h = (refl, tt)
  insert-DistinctKeys k v ((j, w) ∷ m) h =
      ground (
        arith,
        insert-DistinctKeys k v m h.1,
        lookup-insert k j v m,
        str_eq_iff j k,
        str_eq_iff k j,
      )

  pub lookup_of_mem :
      (k : Str) (v : V) (m : Map V) → DistinctKeys m → Memᴰ (k, v) m → lookup k m ≡ some v
  unfolding lookup
  lookup_of_mem k v [] h m = elim m [ ]
  lookup_of_mem k v ((j, w) ∷ m) h (Memᴰ.head e) =
      ground (arith, ap {B = Str} (λ x. x.0) e, ap {B = V} (λ x. x.1) e, str_eq_iff j k)
  lookup_of_mem k v ((j, w) ∷ m) h (Memᴰ.tail t) =
      ground (arith, lookup_of_mem k v m h.1 t, str_eq_iff j k)

  pub mem_of_lookup : (k : Str) (v : V) (m : Map V) → lookup k m ≡ some v → Memᴰ (k, v) m
  unfolding lookup
  mem_of_lookup k v [] e = cc
  mem_of_lookup k v ((j, w) ∷ m) e = elim (Bool-cases (str_eq j k)) [
    | inl same ↦ Memᴰ.head (ground (arith, str_eq_iff j k))
    | inr other ↦ Memᴰ.tail (mem_of_lookup k v m (ground arith))
  ]

unfoldable pub map_functions : Unit {0}
unfolding lookup insert row lookup2 insert2
map_functions = tt
