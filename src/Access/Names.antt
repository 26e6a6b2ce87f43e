-- ===== src/Access/Names.antt =====
-- What a request that the identity middleware lets through has (pkg/runtime/identity.go).
use mathlib.Core.List.{Memᴰ}
use fgoths_framework.Prelude.{
  ◌≡◌, ◌⊎◌, refl, Bool, true, false, inl, inr, List, [], ◌∷◌, Option, none, some, is_empty, any,
  arith, Bool-cases,
}
use fgoths_framework.Prelude.Text.{Str}
use fgoths_framework.Access.Identity.{
  ClientIdentity, IdentityPolicy, is_empty_policy, contains_fold, allows, require_client_identity,
}
use fgoths_framework.Access.Meeting.{any-Mem}

-- One of the names of the certificate equals, up to case, one of the list, and is not empty.
abbrev pub Names : (Str → Str → Bool) → List Str → List Str → Type 0
Names equal_fold allowed names =
    (name : Str) × Memᴰ name names
    × (is_empty name ≡ false)
    × (a : Str) × Memᴰ a allowed
    × (equal_fold a name ≡ true)

module _ (equal_fold : Str → Str → Bool) where
  contains_fold-Names :
      (allowed names : List Str)
      → any (λ name. contains_fold equal_fold allowed name) names ≡ true
      → Names equal_fold allowed names
  unfolding contains_fold
  contains_fold-Names allowed names e =
      let (name, t, h) = any-Mem (λ x. contains_fold equal_fold allowed x) names e in
      let (a, u, same) = any-Mem (λ v. equal_fold v name) allowed (ground (arith, h)) in
      (name, t, ground (arith, h), a, u, same)

  -- A request that the identity middleware lets through has a verified certificate, and either the policy
  -- is empty or the common name, a DNS name or a URI of the certificate is, up to case, one that the
  -- policy lists for that kind.
  require_client_identity-Names :
      (p : IdentityPolicy) (identity : Option ClientIdentity)
      → require_client_identity equal_fold p identity ≡ none
      → (c : ClientIdentity) × (identity ≡ some c)
        × ((is_empty_policy p ≡ true)
            ⊎ (Names equal_fold p.allowed_common_names (c.common_name ∷ [])
                ⊎ (Names equal_fold p.allowed_dns_names c.dns_names
                    ⊎ Names equal_fold p.allowed_uris c.uris)))
  unfolding require_client_identity allows
  require_client_identity-Names p none e = cc
  require_client_identity-Names p (some c) e = (c, refl, which)
    where
      which :
          (is_empty_policy p ≡ true)
          ⊎ (Names equal_fold p.allowed_common_names (c.common_name ∷ [])
              ⊎ (Names equal_fold p.allowed_dns_names c.dns_names
                  ⊎ Names equal_fold p.allowed_uris c.uris))
      which =
          let cn =
            any (λ name. contains_fold equal_fold p.allowed_common_names name)
              (c.common_name ∷ []) in
          let dns = any (λ name. contains_fold equal_fold p.allowed_dns_names name) c.dns_names in
          elim (Bool-cases (is_empty_policy p)) [
            | inl unset ↦ inl unset
            | inr closed ↦ elim (Bool-cases cn) [
              | inl found ↦
                  inr (inl (contains_fold-Names p.allowed_common_names (c.common_name ∷ []) found))
              | inr neither ↦ elim (Bool-cases dns) [
                | inl found ↦
                    inr (inr (inl (contains_fold-Names p.allowed_dns_names c.dns_names found)))
                | inr last ↦ inr (
                    inr (
                      inr (
                        contains_fold-Names p.allowed_uris c.uris
                          (ground (arith, e, closed, neither, last)))))
              ]
            ]
          ]
