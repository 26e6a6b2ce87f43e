-- ===== src/Control/Auth.antt =====
-- requireAuth and checkToken (pkg/runtime/controlplane.go). ConstantTimeCompare is equality; its time is
-- left out.
use fgoths_framework.Prelude.{
  ℕ, ◌≡◌, ◌↔◌, Bool, true, false, not, ◌||◌, ◌++◌, Option, none, some, arith, is_empty,
  if◌then◌else◌, ap, ◌∙◌,
}
use fgoths_framework.Prelude.Text.{
  Str, codes, str_eq, str_eq_iff, trim_space, has_prefix, trim_prefix, has_prefix-append,
  trim_prefix-append, has_prefix-split,
}

unfoldable pub check_token : Str → Str → Bool
check_token a b = str_eq a b

abbrev pub bearer : Str
bearer = codes "Bearer "

-- The status of the refusal, or `none` if the API serves the request. `authorization` is the header.
unfoldable pub require_auth : (admin_token authorization : Str) → Option ℕ
unfolding check_token
require_auth admin_token authorization =
    let token = trim_space admin_token in
    if is_empty token
    then some 500
    else if not (has_prefix authorization bearer)
        || not (check_token (trim_prefix authorization bearer) token)
    then some 401
    else none

trim_prefix-split : (s l : Str) → has_prefix s l ≡ true → s ≡ l ++ trim_prefix s l
unfolding trim_prefix
trim_prefix-split s l h = has_prefix-split s l h ∙ ap (λ t. l ++ t) (ground (arith, h))

-- The API serves a request exactly if an admin token that is not blank is configured and the header is
-- "Bearer " followed by that token without the spaces around it.
pub require_auth_iff :
    (admin_token authorization : Str)
    → (require_auth admin_token authorization ≡ none) ↔ (
        (is_empty (trim_space admin_token) ≡ false)
        × (authorization ≡ bearer ++ trim_space admin_token))
unfolding require_auth check_token
require_auth_iff admin_token authorization = (to, from)
  where
    to :
        require_auth admin_token authorization ≡ none
        → (is_empty (trim_space admin_token) ≡ false)
          × (authorization ≡ bearer ++ trim_space admin_token)
    to e =
        let found : has_prefix authorization bearer ≡ true = ground arith in
        let same : str_eq (trim_prefix authorization bearer) (trim_space admin_token) ≡ true =
          ground arith in
        (
          ground arith,
          trim_prefix-split authorization bearer found
              ∙ ap (λ t. bearer ++ t)
                  ((str_eq_iff (trim_prefix authorization bearer) (trim_space admin_token)).0 same),
        )

    from :
        (is_empty (trim_space admin_token) ≡ false)
          × (authorization ≡ bearer ++ trim_space admin_token)
        → require_auth admin_token authorization ≡ none
    from (named, e) = ground (
      arith,
      named,
      ap (λ a. has_prefix a bearer) e,
      has_prefix-append bearer (trim_space admin_token),
      ap (λ a. trim_prefix a bearer) e,
      trim_prefix-append bearer (trim_space admin_token),
      str_eq_iff (trim_prefix authorization bearer) (trim_space admin_token),
    )
