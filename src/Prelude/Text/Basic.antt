-- ===== src/Prelude/Text/Basic.antt =====
-- Equality, prefixes, searching and splitting of byte strings.
use Prim.Native.Nat.{ℕ, suc, ◌-◌}
use Prim.Native.Char.{code}
use Prim.Native.String.{String}
use mathlib.Core.Path.{◌≡◌}
use mathlib.Core.Logic.{◌↔◌}
use mathlib.Core.Bool.{Bool, true, false, ◌&&◌}
use mathlib.Core.Option
use mathlib.Core.Option.{Option, none, some}
use mathlib.Core.List.{List, [], ◌∷◌, map, reverse}
use native.Mathlib.Omega.{arith}
use fgoths_framework.Prelude.Tests.{leb, ◌==◌, if◌then◌else◌}
use fgoths_framework.Prelude.Lists.{length, take, drop}

abbrev pub Str : Type 0
Str = List ℕ

-- A literal; its code points are its bytes, as all literals of the runtime are ASCII.
abbrev pub codes : String → Str
codes String.[] = []
codes (String.◌∷◌ c s) = code c ∷ codes s

unfoldable pub str_eq : Str → Str → Bool
str_eq [] [] = true
str_eq (a ∷ s) (b ∷ t) = a == b && str_eq s t
str_eq _ _ = false

pub str_eq_iff : (s t : Str) → (str_eq s t ≡ true) ↔ (s ≡ t)
unfolding str_eq
str_eq_iff [] [] = ground arith
str_eq_iff (a ∷ s) (b ∷ t) = ground (arith, str_eq_iff s t)
str_eq_iff [] (b ∷ t) = ground arith
str_eq_iff (a ∷ s) [] = ground arith

unfoldable pub has_prefix : Str → Str → Bool
has_prefix s [] = true
has_prefix [] (b ∷ t) = false
has_prefix (a ∷ s) (b ∷ t) = a == b && has_prefix s t

unfoldable pub has_suffix : Str → Str → Bool
unfolding has_prefix
has_suffix s t = has_prefix (reverse s) (reverse t)

unfoldable pub trim_prefix : Str → Str → Str
unfolding has_prefix
trim_prefix s t = if has_prefix s t then drop (length t) s else s

unfoldable pub trim_suffix : Str → Str → Str
unfolding has_suffix
trim_suffix s t = if has_suffix s t then take (length s - length t) s else s

-- `IndexByte`, with `none` for -1.
unfoldable pub index_byte : Str → ℕ → Option ℕ
index_byte [] b = none
index_byte (a ∷ s) b = let rest = index_byte s b in if a == b then some 0 else Option.map suc rest

-- `Index`, with `none` for -1.
unfoldable pub index_of : Str → Str → Option ℕ
unfolding has_prefix
index_of [] t = if has_prefix [] t then some 0 else none
index_of (a ∷ s) t =
    let rest = index_of s t in if has_prefix (a ∷ s) t then some 0 else Option.map suc rest

unfoldable pub to_upper_byte : ℕ → ℕ
to_upper_byte b = if leb b'a' b && leb b b'z' then b - 32 else b

unfoldable pub to_upper : Str → Str
unfolding to_upper_byte
to_upper = map to_upper_byte

abbrev push_head : ℕ → List Str → List Str
push_head a [] = (a ∷ []) ∷ []
push_head a (s ∷ ss) = (a ∷ s) ∷ ss

-- `Split` at a single byte.
unfoldable pub split_byte : Str → ℕ → List Str
split_byte [] b = [] ∷ []
split_byte (a ∷ s) b = let rest = split_byte s b in if a == b then [] ∷ rest else push_head a rest
