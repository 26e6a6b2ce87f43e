-- ===== src/Access/Tests.antt =====
-- Runs of pkg/runtime/auth.go and pkg/runtime/identity.go, and the theorems at concrete inputs.
use fgoths_framework.Prelude.{
  ◌≡◌, ◌↔◌, refl, Bool, false, true, subst, arith, [], ◌∷◌, Option, some, none, is_empty,
  if◌then◌else◌,
}
use fgoths_framework.Prelude.Text.{Str, codes, str_eq, text_functions}
use fgoths_framework.Prelude.Maps.{map_functions}
use fgoths_framework.Access.Claims.{
  Claim, Claims, text, Policy, fields, normalize_string_slice, has_any_value, check_any,
  claim_matches, check_claims, check, role_failed,
}
use fgoths_framework.Access.Tokens.{
  entered, refused, bearer_token, signing_key, jwt_claims_map, check_token_claims, require_jwt,
  require_role, hmac, other_method, Token, map_claims,
}
use fgoths_framework.Access.Identity.{
  ClientIdentity, IdentityPolicy, is_empty_policy, contains_fold, allows, require_client_identity,
}
use fgoths_framework.Access.Meeting.{IsMet}
use fgoths_framework.Access.Granting.{IsBearer, require_jwt_iff}

access : Unit {0}
unfolding text_functions map_functions fields normalize_string_slice has_any_value check_any
    claim_matches check_claims check bearer_token signing_key jwt_claims_map check_token_claims
    require_jwt require_role is_empty_policy contains_fold allows require_client_identity
access = tt

-- Functions in the place of the libraries'.
abbrev never : Claim → Claim → Bool
never a b = false

-- A library whose tokens are "n", of no method, and any other text, signed by HMAC under itself.
abbrev one_token : Str → Token
one_token string = record {
  method = if str_eq string (codes "n") then other_method else hmac;
  valid = true;
  claims = map_claims ((codes "roles", text (codes "admin ops")) ∷ []);
}

abbrev with_key : Str → Token → Option Str → Option Token
with_key raw token none = none
with_key raw token (some key) = if str_eq raw key then some token else none

abbrev parse_one : Str → (Token → Option Str) → Option Token
parse_one raw key_func = with_key raw (one_token raw) (key_func (one_token raw))

with_key-given :
    (raw : Str) (made token : Token) (given : Option Str)
    → with_key raw made given ≡ some token
    → (key : Str) × (given ≡ some key) × (str_eq raw key ≡ true) × (made ≡ token)
with_key-given raw made token none e = absurd (ground arith)
with_key-given raw made token (some key) e = (key, refl, ground arith, ground arith)

parse_one-verifies :
    (raw : Str) (key_func : Token → Option Str) (token : Token)
    → parse_one raw key_func ≡ some token
    → (key : Str) × (key_func token ≡ some key) × (str_eq raw key ≡ true)
parse_one-verifies raw key_func token e =
    let (key, given, signed, same) =
      with_key-given raw (one_token raw) token (key_func (one_token raw)) e in
    (key, subst (λ t. key_func t ≡ some key) same given, signed)

abbrev ops : Policy
ops = record {
  roles = codes "dev" ∷ codes "ops" ∷ [];
  scopes = [];
  claims = [];
  roles_claim = [];
  scopes_claim = [];
}

abbrev admins : Claims
admins = (codes "roles", text (codes "admin ops")) ∷ []

split_roles : fields (codes "  admin\tops ") ≡ codes "admin" ∷ codes "ops" ∷ []
unfolding access
split_roles = refl

dev_only : check never (record ops { roles = codes "dev" ∷ [] }) admins ≡ some role_failed
unfolding access
dev_only = refl

token_served :
    require_jwt str_eq never parse_one (codes "key") ops (codes "Bearer  key ") ≡ entered admins
unfolding access
token_served = refl

-- The secret "n" verifies the token "n", which the key function refuses for its method.
other_method_refused :
    require_jwt str_eq never parse_one (codes "n") ops (codes "Bearer n") ≡ refused 401
unfolding access
other_method_refused = refl

require_jwt_iff_example :
    (require_jwt str_eq never parse_one (codes "key") ops (codes "Bearer key") ≡ entered admins) ↔ (
      (is_empty (codes "key") ≡ false)
      × ((string : Str) × (token : Token) × IsBearer str_eq never parse_one str_eq
            parse_one-verifies
            (codes "key")
            (codes "Bearer key")
            admins
            string
            token)
      × IsMet never ops admins)
require_jwt_iff_example =
    require_jwt_iff str_eq never parse_one str_eq parse_one-verifies (codes "key")
      (codes "Bearer key") ops admins

abbrev shop : ClientIdentity
shop = record { common_name = codes "shop"; dns_names = codes "shop.local" ∷ []; uris = [] }

abbrev by_dns : IdentityPolicy
by_dns = record {
  allowed_common_names = codes "cart" ∷ [];
  allowed_dns_names = codes "shop.local" ∷ [];
  allowed_uris = [];
}
