-- ===== src/Prelude/Text/Laws.antt =====
-- Laws of prefixes.
use mathlib.Core.Path.{◌≡◌, refl}
use mathlib.Core.Bool.{true}
use mathlib.Core.List.{[], ◌∷◌, ◌++◌}
use native.Mathlib.Omega.{arith}
use fgoths_framework.Prelude.Lists.{length, drop}
use fgoths_framework.Prelude.Text.Basic.{Str, has_prefix, trim_prefix}

pub has_prefix-append : (s t : Str) → has_prefix (s ++ t) s ≡ true
unfolding has_prefix
has_prefix-append [] [] = refl
has_prefix-append [] (b ∷ t) = refl
has_prefix-append (a ∷ s) t = ground (arith, has_prefix-append s t)

pub drop-append : (s t : Str) → drop (length s) (s ++ t) ≡ t
drop-append [] t = refl
drop-append (a ∷ s) t = drop-append s t

pub trim_prefix-append : (s t : Str) → trim_prefix (s ++ t) s ≡ t
unfolding trim_prefix
trim_prefix-append s t = ground (arith, has_prefix-append s t, drop-append s t)

pub has_prefix-split : (s l : Str) → has_prefix s l ≡ true → s ≡ l ++ drop (length l) s
unfolding has_prefix
has_prefix-split s [] h = refl
has_prefix-split [] (b ∷ l) h = cc
has_prefix-split (a ∷ s) (b ∷ l) h = ground (arith, has_prefix-split s l)
