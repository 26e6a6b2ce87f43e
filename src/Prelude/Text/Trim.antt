-- ===== src/Prelude/Text/Trim.antt =====
-- `strings.TrimSpace`: white space is what unicode.IsSpace accepts, read from UTF-8.
use Prim.Native.Nat.{ℕ, zero, suc, ◌-◌}
use mathlib.Core.Path.{◌≡◌, refl, sym, ap, ◌∙◌}
use mathlib.Core.Bool.{Bool, ◌&&◌, ◌||◌}
use mathlib.Core.List.{[], ◌∷◌, ◌++◌, reverse, reverse-append, reverse-reverse}
use native.Mathlib.Omega.{arith}
use fgoths_framework.Prelude.Tests.{leb, ◌==◌, if◌then◌else◌}
use fgoths_framework.Prelude.Text.Basic.{Str}

is_space1 : ℕ → Bool
is_space1 a = (leb 9 a && leb a 13) || a == 32

is_space2 : ℕ → ℕ → Bool
is_space2 a b = a == 0xC2 && (b == 0x85 || b == 0xA0)

is_space3 : ℕ → ℕ → ℕ → Bool
is_space3 a b c =
    (a == 0xE1 && b == 0x9A && c == 0x80)
    || (a == 0xE2
        && b == 0x80
        && ((leb 0x80 c && leb c 0x8A) || c == 0xA8 || c == 0xA9 || c == 0xAF))
    || (a == 0xE2 && b == 0x81 && c == 0x9F)
    || (a == 0xE3 && b == 0x80 && c == 0x80)

-- The bytes of the white-space rune at the head, 0 if there is none.
unfoldable pub space_width : Str → ℕ
unfolding is_space1 is_space2 is_space3
space_width [] = 0
space_width (a ∷ []) = if is_space1 a then 1 else 0
space_width (a ∷ b ∷ []) = if is_space1 a then 1 else if is_space2 a b then 2 else 0
space_width (a ∷ b ∷ c ∷ s) =
    if is_space1 a then 1 else if is_space2 a b then 2 else if is_space3 a b c then 3 else 0

-- The same at the end of a string that is read backwards.
unfoldable pub last_space_width : Str → ℕ
unfolding is_space1 is_space2 is_space3
last_space_width [] = 0
last_space_width (a ∷ []) = if is_space1 a then 1 else 0
last_space_width (b ∷ a ∷ []) = if is_space1 b then 1 else if is_space2 a b then 2 else 0
last_space_width (c ∷ b ∷ a ∷ s) =
    if is_space1 c then 1 else if is_space2 b c then 2 else if is_space3 a b c then 3 else 0

-- Drops `pending` bytes, which belong to a rune already read, and then all white space.
unfoldable pub drop_spaces : (Str → ℕ) → ℕ → Str → Str
drop_spaces w pending [] = []
drop_spaces w (suc pending) (a ∷ s) = drop_spaces w pending s
drop_spaces w zero (a ∷ s) =
    let rest = drop_spaces w (w (a ∷ s) - 1) s in if w (a ∷ s) == 0 then a ∷ s else rest

unfoldable pub trim_space : Str → Str
unfolding drop_spaces space_width last_space_width
trim_space s = reverse (drop_spaces last_space_width 0 (reverse (drop_spaces space_width 0 s)))

module _ (w : Str → ℕ) (w-nil : w [] ≡ 0) where
  drop_spaces_stops : (k : ℕ) (s : Str) → w (drop_spaces w k s) ≡ 0
  unfolding drop_spaces
  drop_spaces_stops k [] = w-nil
  drop_spaces_stops (suc k) (a ∷ s) = drop_spaces_stops k s
  drop_spaces_stops zero (a ∷ s) = ground (arith, drop_spaces_stops (w (a ∷ s) - 1) s)

drop_spaces_of_zero : (w : Str → ℕ) (s : Str) → w s ≡ 0 → drop_spaces w 0 s ≡ s
unfolding drop_spaces
drop_spaces_of_zero w [] h = refl
drop_spaces_of_zero w (a ∷ s) h = ground arith

-- What is dropped is a prefix.
drop_spaces-suffix : (w : Str → ℕ) (k : ℕ) (s : Str) → (p : Str) × (s ≡ p ++ drop_spaces w k s)
unfolding drop_spaces
drop_spaces-suffix w k [] = ([], refl)
drop_spaces-suffix w (suc k) (a ∷ s) =
    let (p, e) = drop_spaces-suffix w k s in (a ∷ p, ap (◌∷◌ a) e)
drop_spaces-suffix w zero (a ∷ s) =
    let (p, e) = drop_spaces-suffix w (w (a ∷ s) - 1) s in
    (if w (a ∷ s) == 0 then [] else a ∷ p, ground arith)

space_width-append : (s t : Str) → space_width (s ++ t) ≡ 0 → space_width s ≡ 0
unfolding space_width
space_width-append [] t h = refl
space_width-append (a ∷ []) [] h = h
space_width-append (a ∷ []) (b ∷ []) h = ground arith
space_width-append (a ∷ []) (b ∷ c ∷ t) h = ground arith
space_width-append (a ∷ b ∷ []) [] h = h
space_width-append (a ∷ b ∷ []) (c ∷ t) h = ground arith
space_width-append (a ∷ b ∷ c ∷ s) t h = h

space_width-nil : space_width [] ≡ 0
unfolding space_width
space_width-nil = refl

last_space_width-nil : last_space_width [] ≡ 0
unfolding last_space_width
last_space_width-nil = refl

-- Trimming the right end leaves a prefix.
trim_right-prefix :
    (u : Str) → (q : Str) × (u ≡ reverse (drop_spaces last_space_width 0 (reverse u)) ++ q)
trim_right-prefix u =
    let (p, e) = drop_spaces-suffix last_space_width 0 (reverse u) in
    (reverse p, sym (reverse-reverse u) ∙ ap reverse e ∙ reverse-append p _)

trim_space_head : (s : Str) → space_width (trim_space s) ≡ 0
unfolding trim_space
trim_space_head s =
    let u : Str = drop_spaces space_width 0 s in
    let (q, e) = trim_right-prefix u in
    space_width-append (trim_space s) q
      (ap space_width (sym e) ∙ drop_spaces_stops space_width space_width-nil 0 s)

trim_space_last : (s : Str) → last_space_width (reverse (trim_space s)) ≡ 0
unfolding trim_space
trim_space_last s = rw reverse-reverse (
    drop_spaces_stops last_space_width last_space_width-nil 0
      (reverse (drop_spaces space_width 0 s)))

-- Trimming a second time changes nothing.
pub trim_space_idem : (s : Str) → trim_space (trim_space s) ≡ trim_space s
unfolding trim_space
trim_space_idem s =
    let t : Str = trim_space s in
    let head : drop_spaces space_width 0 t ≡ t =
      drop_spaces_of_zero space_width t (trim_space_head s) in
    let last : drop_spaces last_space_width 0 (reverse t) ≡ reverse t =
      drop_spaces_of_zero last_space_width (reverse t) (trim_space_last s) in
    ap (λ u. reverse (drop_spaces last_space_width 0 (reverse u))) head
    ∙ ap reverse last
    ∙ reverse-reverse t
