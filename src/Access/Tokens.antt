-- ===== src/Access/Tokens.antt =====
-- bearerToken, requireJWT, RequireRole, RequirePermission and RequireAccess (pkg/runtime/auth.go).
-- `parse_token` is jwt.Parse of the JWT library, which takes the text of a token and the code's key
-- function; `none` is an error. `equal_fold` is strings.EqualFold.
use fgoths_framework.Prelude.{
  ℕ, Bool, not, ◌&&◌, [], ◌∷◌, Option, none, some, is_empty, take, drop, if◌then◌else◌,
}
use fgoths_framework.Prelude.Text.{Str, codes, index_byte, trim_space}
use fgoths_framework.Prelude.Maps.{lookup}
use fgoths_framework.Access.Claims.{Claim, Claims, nil, Policy, has_any_value, check_claims, check}

-- The request is refused with a status, or goes on with these claims in its context.
pub data Entry : Type 0 where
  refused : (status : ℕ) → Entry
  entered : Claims → Entry

module _ (equal_fold : Str → Str → Bool) where
  -- `none` is an error.
  unfoldable pub bearer_token : (authorization : Str) → Option Str
  bearer_token authorization =
      if is_empty authorization then none else elim (index_byte authorization b' ') [
        | none ↦ none
        | some i ↦
            let token = drop (ℕ.suc i) authorization in
            if not (equal_fold (take i authorization) (codes "Bearer"))
            then none
            else if is_empty (trim_space token)
            then none
            else some (trim_space token)
      ]

-- What the code reads of a token of the library: whether its method is a SigningMethodHMAC, Valid, and
-- whether its claims are a MapClaims.
pub data SigningMethod : Type 0 where
  hmac other_method : SigningMethod

pub data TokenClaims : Type 0 where
  map_claims : Claims → TokenClaims
  other_claims : TokenClaims

pub record Token : Type 0 where
  pub method : SigningMethod
  pub valid : Bool
  pub claims : TokenClaims

-- The key function of requireJWT; `none` is an error.
unfoldable pub signing_key : (secret : Str) → Token → Option Str
signing_key secret token = elim token.method [ hmac ↦ some secret | other_method ↦ none ]

unfoldable pub jwt_claims_map : TokenClaims → Option Claims
jwt_claims_map (map_claims claims) = some claims
jwt_claims_map other_claims = none

module _ (deep_equal : Claim → Claim → Bool) where
  -- The token is valid; its claims are read and checked.
  unfoldable pub check_token_claims : Policy → TokenClaims → Entry
  unfolding jwt_claims_map check
  check_token_claims policy token_claims = elim (jwt_claims_map token_claims) [
    | none ↦ refused 401
    | some claims ↦ elim (check deep_equal policy claims) [
      | some e ↦ refused 403
      | none ↦ entered claims
    ]
  ]

module _ (equal_fold : Str → Str → Bool) (deep_equal : Claim → Claim → Bool)
    (parse_token : Str → (Token → Option Str) → Option Token) where
  unfoldable pub require_jwt : (secret : Str) → Policy → (authorization : Str) → Entry
  unfolding bearer_token signing_key check_token_claims
  require_jwt secret policy authorization =
      let entry : Entry = elim (bearer_token equal_fold authorization) [
        | none ↦ refused 401
        | some text ↦ elim (parse_token text (signing_key secret)) [
          | none ↦ refused 401
          | some token ↦
              if not token.valid
              then refused 401
              else check_token_claims deep_equal policy token.claims
        ]
      ] in
      if is_empty secret then refused 500 else entry

-- A missing key reads as nil.
abbrev pub claim_at : Str → Claims → Claim
claim_at name claims = elim (lookup name claims) [ none ↦ nil | some c ↦ c ]

-- The claims are those of the context, `none` without any.
unfoldable pub require_role : (role : Str) → Option Claims → Option ℕ
unfolding has_any_value
require_role role none = some 403
require_role role (some claims) =
    if not (has_any_value (claim_at (codes "roles") claims) (role ∷ []))
      && not (has_any_value (claim_at (codes "role") claims) (role ∷ []))
    then some 403
    else none

unfoldable pub require_permission : (permission : Str) → Option Claims → Option ℕ
unfolding has_any_value
require_permission permission none = some 403
require_permission permission (some claims) =
    if not (has_any_value (claim_at (codes "permissions") claims) (permission ∷ []))
      && (not (has_any_value (claim_at (codes "scope") claims) (permission ∷ []))
          && not (has_any_value (claim_at (codes "scopes") claims) (permission ∷ [])))
    then some 403
    else none

unfoldable pub require_access :
    (Claim → Claim → Bool) → (wanted : Claims) → Option Claims → Option ℕ
unfolding check_claims
require_access deep_equal wanted none = some 403
require_access deep_equal wanted (some claims) = elim (check_claims deep_equal wanted claims) [
  | some e ↦ some 403
  | none ↦ none
]
