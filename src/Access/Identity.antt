-- ===== src/Access/Identity.antt =====
-- IdentityPolicy and RequireClientIdentity (pkg/runtime/identity.go). A request has the identity of its
-- first certificate, `none` without a verified one. `equal_fold` is strings.EqualFold.
use fgoths_framework.Prelude.{
  ℕ, Bool, not, ◌&&◌, ◌||◌, List, Option, none, some, is_empty, any, if◌then◌else◌,
}
use fgoths_framework.Prelude.Text.{Str}

pub record ClientIdentity : Type 0 where
  pub common_name : Str
  pub dns_names : List Str
  pub uris : List Str

pub record IdentityPolicy : Type 0 where
  pub allowed_common_names : List Str
  pub allowed_dns_names : List Str
  pub allowed_uris : List Str

unfoldable pub is_empty_policy : IdentityPolicy → Bool
is_empty_policy p =
    is_empty p.allowed_common_names && (is_empty p.allowed_dns_names && is_empty p.allowed_uris)

module _ (equal_fold : Str → Str → Bool) where
  unfoldable pub contains_fold : List Str → Str → Bool
  contains_fold values want = not (is_empty want) && any (λ v. equal_fold v want) values

  unfoldable pub allows : IdentityPolicy → Option ClientIdentity → Bool
  unfolding is_empty_policy contains_fold
  allows p none = is_empty_policy p
  allows p (some identity) =
      is_empty_policy p
      || ((not (is_empty p.allowed_common_names)
            && contains_fold p.allowed_common_names identity.common_name)
          || ((not (is_empty p.allowed_dns_names)
                && any (λ name. contains_fold p.allowed_dns_names name) identity.dns_names)
              || (not (is_empty p.allowed_uris)
                  && any (λ uri. contains_fold p.allowed_uris uri) identity.uris)))

  -- The status of the refusal.
  unfoldable pub require_client_identity : IdentityPolicy → Option ClientIdentity → Option ℕ
  unfolding allows
  require_client_identity p none = some 401
  require_client_identity p (some identity) = if allows p (some identity) then none else some 403
