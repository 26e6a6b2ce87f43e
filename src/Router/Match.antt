-- ===== src/Router/Match.antt =====
-- matchParams, matchSegment, matchSegParts, paramValue and segPartValue of pkg/runtime/router.go.
-- An offset into a string is the rest of the string from there.
use mathlib.Core.Option
use fgoths_framework.Prelude.{
  ℕ, suc, Bool, false, not, ◌==◌, List, [], ◌∷◌, Option, none, some, if◌then◌else◌, length, take,
  drop, is_empty, leb,
}
use fgoths_framework.Prelude.Text.{Str, str_eq, has_prefix, index_byte, index_of}
use fgoths_framework.Router.Path.{slash}
use fgoths_framework.Router.Pattern.{SegPart, lit, param, RouteSegment, literal, whole, mixed}

-- Where a parameter part ends: before the next literal part, or at the end of the segment.
unfoldable pub part_end : List SegPart → Str → Option ℕ
part_end (lit l ∷ ps) seg = index_of seg l
part_end (param _ ∷ ps) seg = some (length seg)
part_end [] seg = some (length seg)

unfoldable pub match_seg_parts : List SegPart → Str → Bool
unfolding part_end
match_seg_parts [] seg = is_empty seg
match_seg_parts (param name ∷ ps) seg = elim (part_end ps seg) [
  | none ↦ false
  | some e ↦ if e == 0 then false else match_seg_parts ps (drop e seg)
]
match_seg_parts (lit l ∷ ps) seg =
    if has_prefix seg l then match_seg_parts ps (drop (length l) seg) else false

unfoldable pub match_segment : RouteSegment → Str → Bool
unfolding match_seg_parts
match_segment (whole name) seg = not (is_empty seg)
match_segment (mixed parts) seg = match_seg_parts parts seg
match_segment (literal l) seg = str_eq l seg

-- The next segment, and what follows its slash if there is one.
unfoldable pub cut_segment : Str → Str × Option Str
cut_segment path = elim (index_byte path slash) [
  | none ↦ (path, none)
  | some i ↦ (take i path, some (drop (suc i) path))
]

unfoldable pub match_from : List RouteSegment → Str → Bool
unfolding cut_segment match_segment
match_from [] path = false
match_from (s ∷ ss) path =
    let (seg, tail) = cut_segment path in
    elim tail [
      | none ↦ if match_segment s seg then is_empty ss else false
      | some more ↦ if match_segment s seg then match_from ss more else false
    ]

unfoldable pub match_params : List RouteSegment → Str → Bool
unfolding match_from
match_params segments path =
    if leb (length path) 1 then false else match_from segments (drop 1 path)

unfoldable pub seg_part_value : List SegPart → Str → Str → Option Str
unfolding part_end
seg_part_value [] seg name = none
seg_part_value (param n ∷ ps) seg name = elim (part_end ps seg) [
  | none ↦ none
  | some e ↦ if str_eq n name then some (take e seg) else seg_part_value ps (drop e seg) name
]
seg_part_value (lit l ∷ ps) seg name =
    if has_prefix seg l then seg_part_value ps (drop (length l) seg) name else none

-- The value that one segment holds for the name, if the loop of `paramValue` returns there.
unfoldable pub segment_value : RouteSegment → Str → Str → Option Str
unfolding seg_part_value
segment_value (whole n) seg name = if str_eq n name then some seg else none
segment_value (mixed parts) seg name = seg_part_value parts seg name
segment_value (literal l) seg name = none

-- "" where no segment holds the name.
unfoldable pub value_from : List RouteSegment → Str → Str → Str
unfolding cut_segment segment_value
value_from [] path name = []
value_from (s ∷ ss) path name =
    let (seg, tail) = cut_segment path in
    elim tail [
      | none ↦ Option.get_or (segment_value s seg name) []
      | some more ↦ elim (segment_value s seg name) [ some v ↦ v | none ↦ value_from ss more name ]
    ]

unfoldable pub param_value : List RouteSegment → Str → Str → Str
unfolding value_from
param_value segments path name =
    if leb (length path) 1 then [] else value_from segments (drop 1 path) name
