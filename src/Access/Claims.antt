-- ===== src/Access/Claims.antt =====
-- Policy, AccessPolicy and the matching of claims (pkg/runtime/auth.go). Claims are a map from names to
-- values of any Go type. `deep_equal` is reflect.DeepEqual, a parameter.
use fgoths_framework.Prelude.{
  ℕ, zero, suc, ◌-◌, Bool, true, false, ◌&&◌, ◌||◌, List, [], ◌∷◌, Option, none, some, is_empty,
  any, ◌==◌, if◌then◌else◌,
}
use fgoths_framework.Prelude.Float.{Float, float_le}
use fgoths_framework.Prelude.Text.{Str, codes, str_eq, space_width}
use fgoths_framework.Prelude.Maps.{Map, lookup}

-- The values that the code tells apart: nil, a string, []string, []any of which the strings are kept
-- and every other item is `none`, a number of any numeric type, and a value of any other type.
pub data Claim : Type 0 where
  nil : Claim
  text : Str → Claim
  texts : List Str → Claim
  items : List (Option Str) → Claim
  number : Float → Claim
  other : Str → Claim

-- Puts a byte in front of the first field, which is open.
abbrev open_field : ℕ → List Str → List Str
open_field b [] = (b ∷ []) ∷ []
open_field b (f ∷ fs) = (b ∷ f) ∷ fs

-- `strings.Fields`. The first field of the result is the one that the string begins with, which may be
-- empty; `pending` bytes belong to a space that is already read.
abbrev fields_from : (pending : ℕ) → Str → List Str
fields_from pending [] = [] ∷ []
fields_from (suc pending) (b ∷ s) = fields_from pending s
fields_from zero (b ∷ s) =
    let after_space = fields_from (space_width (b ∷ s) - 1) s in
    let rest = fields_from zero s in
    if space_width (b ∷ s) == 0 then open_field b rest else [] ∷ after_space

abbrev not_empty : List Str → List Str
not_empty [] = []
not_empty (f ∷ fs) = let rest = not_empty fs in if is_empty f then rest else f ∷ rest

unfoldable pub fields : Str → List Str
unfolding space_width
fields s = not_empty (fields_from zero s)

abbrev pub only_strings : List (Option Str) → List Str
only_strings [] = []
only_strings (none ∷ xs) = only_strings xs
only_strings (some s ∷ xs) = s ∷ only_strings xs

unfoldable pub normalize_string_slice : Claim → List Str
unfolding fields
normalize_string_slice (text s) = fields s
normalize_string_slice (texts ss) = ss
normalize_string_slice (items xs) = only_strings xs
normalize_string_slice nil = []
normalize_string_slice (number x) = []
normalize_string_slice (other s) = []

-- hasAnyScope has the same body.
unfoldable pub has_any_value : Claim → List Str → Bool
unfolding normalize_string_slice
has_any_value value expected =
    is_empty expected
    || any (λ want. any (λ got. str_eq got want) (normalize_string_slice value)) expected

abbrev pub Claims : Type 0
Claims = Map Claim

pub data AuthError : Type 0 where
  missing_role role_failed missing_scope scope_failed : AuthError
  claim_failed : Str → AuthError

pub record Policy : Type 0 where
  pub roles : List Str
  pub scopes : List Str
  pub claims : Claims
  pub roles_claim : Str
  pub scopes_claim : Str

abbrev pub roles_claim_name : Policy → Str
roles_claim_name p = if is_empty p.roles_claim then codes "roles" else p.roles_claim

abbrev pub scopes_claim_name : Policy → Str
scopes_claim_name p = if is_empty p.scopes_claim then codes "scope" else p.scopes_claim

-- One of the wanted values is in the claim of that name, if any are wanted.
unfoldable pub check_any :
    (name : Str) (wanted : List Str) (missing failed : AuthError) → Claims → Option AuthError
unfolding has_any_value
check_any name wanted missing failed claims =
    if is_empty wanted then none else elim (lookup name claims) [
      | none ↦ some missing
      | some value ↦ if has_any_value value wanted then none else some failed
    ]

module _ (deep_equal : Claim → Claim → Bool) where
  unfoldable pub claim_matches : (got want : Claim) → Bool
  claim_matches nil nil = true
  claim_matches nil want = false
  claim_matches got nil = false
  claim_matches (number x) (number y) =
      deep_equal (number x) (number y) || (float_le x y && float_le y x)
  claim_matches got want = deep_equal got want

  abbrev pub matches_at : Claims → Str → Claim → Bool
  matches_at claims key want = elim (lookup key claims) [
    | none ↦ false
    | some got ↦ claim_matches got want
  ]

  -- AccessPolicy.Check, with which Policy.Check ends; the list is the order in which Go visits the map.
  unfoldable pub check_claims : Claims → Claims → Option AuthError
  unfolding claim_matches
  check_claims [] claims = none
  check_claims ((key, want) ∷ wanted) claims =
      let rest = check_claims wanted claims in
      if matches_at claims key want then rest else some (claim_failed key)

  unfoldable pub check : Policy → Claims → Option AuthError
  unfolding check_any check_claims
  check p claims = elim (check_any (roles_claim_name p) p.roles missing_role role_failed claims) [
    | some e ↦ some e
    | none ↦ elim (check_any (scopes_claim_name p) p.scopes missing_scope scope_failed claims) [
      | some e ↦ some e
      | none ↦ check_claims p.claims claims
    ]
  ]
