-- ===== src/Access/Meeting.antt =====
-- When claims meet a policy (pkg/runtime/auth.go).
use mathlib.Core.List.{Memᴰ}
use fgoths_framework.Prelude.{
  ◌≡◌, ◌↔◌, ◌⊎◌, refl, Bool, true, inl, inr, List, [], ◌∷◌, none, some, any, All, arith, Bool-cases,
  Option-cases, ap, subst,
}
use fgoths_framework.Prelude.Text.{Str, str_eq, str_eq_iff}
use fgoths_framework.Prelude.Maps.{lookup}
use fgoths_framework.Access.Claims.{
  Claim, Claims, Policy, AuthError, missing_role, role_failed, missing_scope, scope_failed,
  normalize_string_slice, has_any_value, roles_claim_name, scopes_claim_name, check_any, matches_at,
  check_claims, check,
}

module _ {A : Type 0} where
  pub any-Mem : (p : A → Bool) (xs : List A) → any p xs ≡ true → (x : A) × Memᴰ x xs × (p x ≡ true)
  any-Mem p [] e = cc
  any-Mem p (x ∷ xs) e = elim (Bool-cases (p x)) [
    | inl here ↦ (x, Memᴰ.head refl, here)
    | inr other ↦ let (y, t, h) = any-Mem p xs (ground arith) in (y, Memᴰ.tail t, h)
  ]

  Mem-any : (p : A → Bool) (xs : List A) (x : A) → Memᴰ x xs → p x ≡ true → any p xs ≡ true
  Mem-any p [] x t h = elim t [ ]
  Mem-any p (y ∷ xs) x (Memᴰ.head e) h = ground (arith, ap p e, h)
  Mem-any p (y ∷ xs) x (Memᴰ.tail t) h = ground (arith, Mem-any p xs x t h)

-- Nothing is wanted, or the claim of that name has one of the wanted values.
abbrev pub HasOne : (name : Str) → List Str → Claims → Type 0
HasOne name wanted claims =
    (wanted ≡ [])
    ⊎ (value : Claim) × (lookup name claims ≡ some value)
      × (s : Str) × Memᴰ s wanted
      × Memᴰ s (normalize_string_slice value)

shared :
    (value : Claim) (wanted : List Str)
    → any (λ want. any (λ got. str_eq got want) (normalize_string_slice value)) wanted ≡ true
    → (s : Str) × Memᴰ s wanted × Memᴰ s (normalize_string_slice value)
shared value wanted e =
    let (s, t, h) =
      any-Mem (λ want. any (λ got. str_eq got want) (normalize_string_slice value)) wanted e in
    let (got, u, same) = any-Mem (λ got. str_eq got s) (normalize_string_slice value) h in
    (s, t, subst (λ x. Memᴰ x (normalize_string_slice value)) ((str_eq_iff got s).0 same) u)

check_any-HasOne :
    (name : Str) (wanted : List Str) (missing failed : AuthError) (claims : Claims)
    → check_any name wanted missing failed claims ≡ none
    → HasOne name wanted claims
unfolding check_any has_any_value
check_any-HasOne name [] missing failed claims e = inl refl
check_any-HasOne name (w ∷ ws) missing failed claims e = elim (Option-cases (lookup name claims)) [
  | inl gone ↦ absurd (ground arith)
  | inr (value, found) ↦
      let (s, t, u) = shared value (w ∷ ws) (ground arith) in inr (value, found, s, t, u)
]

HasOne-check_any :
    (name : Str) (wanted : List Str) (missing failed : AuthError) (claims : Claims)
    → HasOne name wanted claims
    → check_any name wanted missing failed claims ≡ none
unfolding check_any has_any_value
HasOne-check_any name wanted missing failed claims (inl e) = ground (arith, e)
HasOne-check_any name wanted missing failed claims (inr (value, found, s, t, u)) =
    let inner =
      Mem-any (λ got. str_eq got s) (normalize_string_slice value) s u ((str_eq_iff s s).1 refl) in
    let outer =
      Mem-any (λ want. any (λ got. str_eq got want) (normalize_string_slice value)) wanted s t
        inner in
    ground (arith, found, outer)

module _ (deep_equal : Claim → Claim → Bool) where
  -- Every wanted claim is there and matches.
  abbrev pub HasClaims : Claims → Claims → Type 0
  HasClaims wanted claims = All (λ e. matches_at deep_equal claims e.0 e.1 ≡ true) wanted

  check_claims_iff :
      (wanted claims : Claims)
      → (check_claims deep_equal wanted claims ≡ none) ↔ HasClaims wanted claims
  unfolding check_claims
  check_claims_iff [] claims = ((λ e. tt), (λ h. refl))
  check_claims_iff ((key, want) ∷ wanted) claims =
      let (to, from) = check_claims_iff wanted claims in
      ((λ e. (ground arith, to (ground arith))), λ h. ground (arith, h.0, from h.1))

  -- What a policy asks of claims.
  pub record IsMet (p : Policy) (claims : Claims) : Type 0 where
    pub roles : HasOne (roles_claim_name p) p.roles claims
    pub scopes : HasOne (scopes_claim_name p) p.scopes claims
    pub wanted : HasClaims p.claims claims

  -- A policy accepts claims exactly if it asks for no roles or the roles claim has one of them, the same
  -- of scopes, and every claim that it names is there and matches.
  pub check_iff :
      (p : Policy) (claims : Claims) → (check deep_equal p claims ≡ none) ↔ IsMet p claims
  unfolding check
  check_iff p claims = (to, from)
    where
      to : check deep_equal p claims ≡ none → IsMet p claims
      to e = record {
        roles =
            check_any-HasOne (roles_claim_name p) p.roles missing_role role_failed claims
              (ground arith);
        scopes =
            check_any-HasOne (scopes_claim_name p) p.scopes missing_scope scope_failed claims
              (ground arith);
        wanted = (check_claims_iff p.claims claims).0 (ground arith);
      }

      from : IsMet p claims → check deep_equal p claims ≡ none
      from m = ground (
        arith,
        HasOne-check_any (roles_claim_name p) p.roles missing_role role_failed claims m.roles,
        HasOne-check_any (scopes_claim_name p) p.scopes missing_scope scope_failed claims m.scopes,
        (check_claims_iff p.claims claims).1 m.wanted,
      )
