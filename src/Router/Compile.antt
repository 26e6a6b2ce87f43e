-- ===== src/Router/Compile.antt =====
-- compilePattern, compileSegParts, paramSegmentName, validParamName of pkg/runtime/router.go.
use fgoths_framework.Prelude.{
  ℕ, suc, ◌-◌, Bool, true, false, not, ◌&&◌, ◌||◌, List, [], ◌∷◌, ◌++◌, Option, none, some,
  if◌then◌else◌, ◌==◌, leb, length, take, drop, any, is_empty,
}
use fgoths_framework.Prelude.Text.{
  Str, codes, has_prefix, has_suffix, trim_prefix, index_byte, split_byte,
}
use fgoths_framework.Router.Path.{slash, root}
use fgoths_framework.Router.Pattern.{SegPart, lit, param, RouteSegment, literal, whole, mixed}

unfoldable pub valid_param_byte : ℕ → Bool
valid_param_byte b =
    (leb b'a' b && leb b b'z')
    || (leb b'A' b && leb b b'Z')
    || (leb b'0' b && leb b b'9')
    || b == b'_'

-- Every byte of a rune from 0x80 up is at least 0x80, so reading bytes rejects the same names.
unfoldable pub valid_param_name : Str → Bool
unfolding valid_param_byte
valid_param_name name = not (any (λ b. not (valid_param_byte b)) name)

checked_name : Str → Option Str
unfolding valid_param_name
checked_name name =
    if is_empty name then none else if valid_param_name name then some name else none

unfoldable pub param_segment_name : Str → Option Str
unfolding checked_name
param_segment_name segment =
    if has_prefix segment (codes "{") && has_suffix segment (codes "}")
    then checked_name (take (length segment - 2) (drop 1 segment))
    else if has_prefix segment (codes ":")
    then checked_name (drop 1 segment)
    else none

-- The loop's variables: bytes of the current token still to skip, the literal that `lit` has
-- collected, and the parts.
pub record Scan : Type 0 where
  pub skip : ℕ
  pub text : Str
  pub parts : List SegPart

unfoldable pub flush : Str → List SegPart → List SegPart
flush text parts = if is_empty text then parts else parts ++ lit text ∷ []

-- Bytes of a `:name` inside a segment: up to the next '.', '-', '_', '{' or invalid byte.
unfoldable pub colon_name : Str → ℕ
unfolding valid_param_byte
colon_name [] = 0
colon_name (d ∷ s) =
    let rest = colon_name s in
    if d == b'.' || d == b'-' || d == b'_' || d == b'{'
    then 0
    else if valid_param_byte d
    then suc rest
    else 0

abbrev scan_text : ℕ → Scan → Scan
scan_text c st = record st { skip = 0; text = st.text ++ c ∷ [] }

abbrev scan_param : ℕ → Str → Scan → Scan
scan_param used name st = record {
  skip = used;
  text = [];
  parts = flush st.text st.parts ++ param name ∷ [];
}

-- One round of the loop at byte `c`, before the bytes `s`.
unfoldable pub scan_byte : ℕ → Str → Scan → Scan
unfolding valid_param_name colon_name flush
scan_byte c s st =
    if c == b'{'
    then elim (index_byte s b'}') [
      | none ↦ scan_text c st
      | some e ↦
          if is_empty (take e s) || not (valid_param_name (take e s))
          then scan_text c st
          else scan_param (suc e) (take e s) st
    ]
    else if c == b':'
    then (if colon_name s == 0
        then scan_text c st
        else scan_param (colon_name s) (take (colon_name s) s) st)
    else scan_text c st

skip_byte : Scan → Scan
skip_byte st = record st { skip = st.skip - 1 }

unfoldable pub scan_segment : Str → Scan → Scan
unfolding scan_byte skip_byte
scan_segment [] st = st
scan_segment (c ∷ s) st = scan_segment s (if st.skip == 0 then scan_byte c s st else skip_byte st)

abbrev pub is_param : SegPart → Bool
is_param (lit _) = false
is_param (param _) = true

unfoldable pub compile_seg_parts : Str → Option (List SegPart)
unfolding scan_segment flush
compile_seg_parts segment =
    let st = scan_segment segment (record { skip = 0; text = []; parts = [] }) in
    let parts = flush st.text st.parts in if any is_param parts then some parts else none

unfoldable pub compile_segment : Str → RouteSegment
unfolding param_segment_name compile_seg_parts
compile_segment part = elim (param_segment_name part) [
  | some name ↦ whole name
  | none ↦ elim (compile_seg_parts part) [ some parts ↦ mixed parts | none ↦ literal part ]
]

abbrev pub has_param : RouteSegment → Bool
has_param (literal _) = false
has_param (whole _) = true
has_param (mixed _) = true

unfoldable pub compile_all : List Str → List RouteSegment
unfolding compile_segment
compile_all [] = []
compile_all (part ∷ parts) = compile_segment part ∷ compile_all parts

-- `none` is Go's false: the pattern has no segment, or none with a parameter.
unfoldable pub compile_pattern : Str → Option (List RouteSegment)
unfolding compile_all
compile_pattern pattern =
    let trimmed = trim_prefix pattern root in
    let segments = compile_all (split_byte trimmed slash) in
    if is_empty trimmed then none else if any has_param segments then some segments else none
