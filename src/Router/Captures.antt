-- ===== src/Router/Captures.antt =====
-- What a match captures (matchParams, paramValue of pkg/runtime/router.go): the path is the pattern
-- with its parameters filled in, and paramValue reads the first value of a name.
use mathlib.Core.Option
use fgoths_framework.Prelude.{
  ℕ, zero, suc, ◌≡◌, ◌≢◌, refl, sym, ap, ◌∙◌, subst, inl, inr, Bool, true, false, List, [], ◌∷◌,
  ◌++◌, Option, none, some, arith, if◌then◌else◌, ◌==◌, length, take, drop, take-append-drop,
  Bool-cases, Option-cases, leb, is_empty,
}
use fgoths_framework.Prelude.Text.{
  Str, str_eq_iff, has_prefix, index_byte, index_of, has_prefix-split,
}
use fgoths_framework.Prelude.Maps.{Map, lookup}
use fgoths_framework.Router.Path.{slash}
use fgoths_framework.Router.Pattern.{SegPart, lit, param, RouteSegment, literal, whole, mixed}
use fgoths_framework.Router.Match.{
  part_end, match_seg_parts, match_segment, cut_segment, match_from, match_params, seg_part_value,
  segment_value, value_from, param_value,
}

-- A segment of a path against a list of parts: the literals stand as written, and each parameter
-- has a value that is not empty.
pub data PartsMatch : List SegPart → Str → Map Str → Type 0 where
  no_parts : PartsMatch [] [] []
  text :
      {ps : List SegPart} {s : Str} {b : Map Str} (l : Str)
      → PartsMatch ps s b
      → PartsMatch (lit l ∷ ps) (l ++ s) b
  value :
      {ps : List SegPart} {s : Str} {b : Map Str} (name v : Str)
      → v ≢ []
      → PartsMatch ps s b
      → PartsMatch (param name ∷ ps) (v ++ s) ((name, v) ∷ b)

pub data SegmentMatch : RouteSegment → Str → Map Str → Type 0 where
  is_literal : (l : Str) → SegmentMatch (literal l) l []
  is_whole : (name v : Str) → v ≢ [] → SegmentMatch (whole name) v ((name, v) ∷ [])
  is_mixed :
      {ps : List SegPart} {s : Str} {b : Map Str} → PartsMatch ps s b → SegmentMatch (mixed ps) s b

-- The path without its leading slash, segment by segment.
pub data PathMatch : List RouteSegment → Str → Map Str → Type 0 where
  last :
      {s : RouteSegment} {seg : Str} {b : Map Str} → SegmentMatch s seg b → PathMatch (s ∷ []) seg b
  more :
      {s : RouteSegment} {ss : List RouteSegment} {seg path : Str} {b c : Map Str}
      → SegmentMatch s seg b
      → PathMatch ss path c
      → PathMatch (s ∷ ss) (seg ++ slash ∷ path) (b ++ c)

-- What `index_byte` finds.
index_byte-split :
    (s : Str) (b i : ℕ) → index_byte s b ≡ some i → s ≡ take i s ++ b ∷ drop (suc i) s
unfolding index_byte
index_byte-split [] b i e = cc
index_byte-split (a ∷ s) b zero e = ground arith
index_byte-split (a ∷ s) b (suc i) e = ap (◌∷◌ a) (index_byte-split s b i (ground arith))

part_end-nil : (ps : List SegPart) (e : ℕ) → part_end ps [] ≡ some e → e ≡ 0
unfolding part_end index_of
part_end-nil [] e h = ground arith
part_end-nil (param _ ∷ ps) e h = ground arith
part_end-nil (lit l ∷ ps) e h = ground arith

take-ne-nil :
    (ps : List SegPart) (seg : Str) (e : ℕ)
    → part_end ps seg ≡ some e
    → (e == 0) ≡ false
    → take e seg ≢ []
take-ne-nil ps [] e h k = absurd (ground (arith, part_end-nil ps e h))
take-ne-nil ps (a ∷ s) zero h k = cc
take-ne-nil ps (a ∷ s) (suc e) h k = λ r. cc

-- A match of a mixed segment, with the values that segPartValue reads from it.
record PartsRead (ps : List SegPart) (seg : Str) : Type 0 where
  values : Map Str
  derivation : PartsMatch ps seg values
  reads : (name : Str) → seg_part_value ps seg name ≡ lookup name values

match_seg_parts_sound :
    (ps : List SegPart) (seg : Str) → match_seg_parts ps seg ≡ true → PartsRead ps seg
unfolding match_seg_parts seg_part_value lookup
match_seg_parts_sound [] [] h = record { values = []; derivation = no_parts; reads = λ name. refl }
match_seg_parts_sound [] (a ∷ s) h = cc
match_seg_parts_sound (lit l ∷ ps) seg h = elim (Bool-cases (has_prefix seg l)) [
  | inr miss ↦ absurd (ground arith)
  | inl hit ↦
      let r = match_seg_parts_sound ps (drop (length l) seg) (rw hit at h) in
      record {
        values = r.values;
        derivation =
            subst (λ t. PartsMatch (lit l ∷ ps) t r.values) (sym (has_prefix-split seg l hit))
              (text l r.derivation);
        reads = λ name. rw hit (r.reads name);
      }
]
match_seg_parts_sound (param n ∷ ps) seg h = elim (Option-cases (part_end ps seg)) [
  | inl nowhere ↦ absurd (ground arith)
  | inr (e, ends) ↦ elim (Bool-cases (e == 0)) [
    | inl empty ↦ absurd (ground arith)
    | inr full ↦
        let r = match_seg_parts_sound ps (drop e seg) (ground arith) in
        record {
          values = (n, take e seg) ∷ r.values;
          derivation =
              subst (λ t. PartsMatch (param n ∷ ps) t ((n, take e seg) ∷ r.values))
                (take-append-drop e seg)
                (value n (take e seg) (take-ne-nil ps seg e ends full) r.derivation);
          reads = λ name. ground (arith, r.reads name);
        }
  ]
]

record SegmentRead (s : RouteSegment) (seg : Str) : Type 0 where
  values : Map Str
  derivation : SegmentMatch s seg values
  reads : (name : Str) → segment_value s seg name ≡ lookup name values

match_segment_sound :
    (s : RouteSegment) (seg : Str) → match_segment s seg ≡ true → SegmentRead s seg
unfolding match_segment segment_value lookup
match_segment_sound (literal l) seg h = record {
  values = [];
  derivation = subst (λ t. SegmentMatch (literal l) t []) ((str_eq_iff l seg).0 h) (is_literal l);
  reads = λ name. refl;
}
match_segment_sound (whole n) [] h = cc
match_segment_sound (whole n) (a ∷ s) h = record {
  values = (n, a ∷ s) ∷ [];
  derivation = is_whole n (a ∷ s) (λ e. cc);
  reads = λ name. refl;
}
match_segment_sound (mixed ps) seg h =
    let r = match_seg_parts_sound ps seg h in
    record { values = r.values; derivation = is_mixed r.derivation; reads = r.reads }

abbrev first_of_two : Option Str → Option Str → Option Str
first_of_two (some v) o = some v
first_of_two none o = o

lookup-append :
    (name : Str) (b c : Map Str)
    → lookup name (b ++ c) ≡ first_of_two (lookup name b) (lookup name c)
unfolding lookup
lookup-append name [] c = refl
lookup-append name ((n, v) ∷ b) c = ground (arith, lookup-append name b c)

pub record PathRead (ss : List RouteSegment) (path : Str) : Type 0 where
  pub values : Map Str
  pub derivation : PathMatch ss path values
  pub reads : (name : Str) → value_from ss path name ≡ Option.get_or (lookup name values) []

-- What `cut_segment` returns in its two cases.
cut_none : (path : Str) → index_byte path slash ≡ none → cut_segment path ≡ (path, none)
unfolding cut_segment
cut_none path e = rw (e, cut_segment)

cut_some :
    (path : Str) (i : ℕ)
    → index_byte path slash ≡ some i
    → cut_segment path ≡ (take i path, some (drop (suc i) path))
unfolding cut_segment
cut_some path i e = rw (e, cut_segment)

module _ (s : RouteSegment) (ss : List RouteSegment) (path : Str) where
  match_from_last :
      index_byte path slash ≡ none
      → match_from (s ∷ ss) path ≡ (if match_segment s path then is_empty ss else false)
  unfolding match_from
  match_from_last e = ground (arith, cut_none path e)

  match_from_more :
      (i : ℕ)
      → index_byte path slash ≡ some i
      → match_from (s ∷ ss) path
        ≡ (if match_segment s (take i path) then match_from ss (drop (suc i) path) else false)
  unfolding match_from
  match_from_more i e = ground (arith, cut_some path i e)

  value_from_last :
      (name : Str)
      → index_byte path slash ≡ none
      → value_from (s ∷ ss) path name ≡ Option.get_or (segment_value s path name) []
  unfolding value_from
  value_from_last name e = ground (arith, cut_none path e)

  value_from_more :
      (i : ℕ) (name : Str)
      → index_byte path slash ≡ some i
      → value_from (s ∷ ss) path name
        ≡ Option.get_or
            (first_of_two
              (segment_value s (take i path) name)
              (some (value_from ss (drop (suc i) path) name)))
            []
  unfolding value_from
  value_from_more i name e = ground (arith, cut_some path i e)

if_true : (b c : Bool) → (if b then c else false) ≡ true → (b ≡ true) × (c ≡ true)
if_true true c h = (refl, h)
if_true false c h = cc

eq-nil_of_is_empty : (ss : List RouteSegment) → is_empty ss ≡ true → ss ≡ []
eq-nil_of_is_empty [] h = refl
eq-nil_of_is_empty (s ∷ ss) h = cc

first_of_two_default :
    (o p : Option Str) (w : Str)
    → w ≡ Option.get_or p []
    → Option.get_or (first_of_two o (some w)) [] ≡ Option.get_or (first_of_two o p) []
first_of_two_default (some v) p w e = refl
first_of_two_default none p w e = e

match_from_sound :
    (ss : List RouteSegment) (path : Str) → match_from ss path ≡ true → PathRead ss path
unfolding match_from value_from
match_from_sound [] path h = cc
match_from_sound (s ∷ ss) path h = elim (Option-cases (index_byte path slash)) [
  | inl alone ↦
      let (hit, ended) = if_true _ _ (sym (match_from_last s ss path alone) ∙ h) in
      let r = match_segment_sound s path hit in
      record {
        values = r.values;
        derivation =
            subst (λ (t : List RouteSegment). PathMatch (s ∷ t) path r.values)
              (sym (eq-nil_of_is_empty ss ended)) (last r.derivation);
        reads = λ name.
            value_from_last s ss path name alone ∙ ap (λ o. Option.get_or o []) (r.reads name);
      }
  | inr (i, at) ↦
      let (hit, tail) = if_true _ _ (sym (match_from_more s ss path i at) ∙ h) in
      let r = match_segment_sound s (take i path) hit in
      let q = match_from_sound ss (drop (suc i) path) tail in
      record {
        values = r.values ++ q.values;
        derivation =
            subst (λ (t : Str). PathMatch (s ∷ ss) t (r.values ++ q.values))
              (sym (index_byte-split path slash i at)) (more r.derivation q.derivation);
        reads = λ name.
            value_from_more s ss path i name at
            ∙ rw (r.reads name, lookup-append name r.values q.values)
                (first_of_two_default (lookup name r.values) (lookup name q.values) _
                  (q.reads name));
      }
]

-- If the segments match a path, then the path after its first byte is the segments with a value
-- for each parameter, none of them empty, joined by slashes; and reading a name gives its first
-- value, or "" for a name that is no parameter.
pub match_params_sound :
    (segments : List RouteSegment) (a : ℕ) (path : Str)
    → match_params segments (a ∷ path) ≡ true
    → (values : Map Str) × PathMatch segments path values
      × ((name : Str)
          → param_value segments (a ∷ path) name ≡ Option.get_or (lookup name values) [])
unfolding match_params param_value
match_params_sound segments a [] h = cc
match_params_sound segments a (b ∷ path) h =
    let short : leb (length (a ∷ b ∷ path)) 1 ≡ false = ground arith in
    let r = match_from_sound segments (b ∷ path) (rw (short, match_params) at h) in
    (r.values, r.derivation, λ name. rw (short, param_value) (r.reads name))
