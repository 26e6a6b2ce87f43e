-- ===== src/Access/Granting.antt =====
-- What a request that the JWT middleware lets through has (pkg/runtime/auth.go).
use fgoths_framework.Prelude.{
  ◌≡◌, ◌↔◌, Bool, true, false, inl, inr, Option, some, is_empty, arith, Option-cases, ap, subst,
}
use fgoths_framework.Prelude.Text.{Str}
use fgoths_framework.Access.Claims.{Claim, Claims, Policy}
use fgoths_framework.Access.Tokens.{
  entered, bearer_token, require_jwt, hmac, TokenClaims, map_claims, other_claims, Token,
  signing_key, jwt_claims_map, check_token_claims,
}
use fgoths_framework.Access.Meeting.{IsMet, check_iff}

check_token_claims_iff :
    (deep_equal : Claim → Claim → Bool) (policy : Policy) (token_claims : TokenClaims)
    (claims : Claims)
    → (check_token_claims deep_equal policy token_claims ≡ entered claims)
      ↔ ((token_claims ≡ map_claims claims) × IsMet deep_equal policy claims)
unfolding check_token_claims jwt_claims_map
check_token_claims_iff deep_equal policy other_claims claims = (ground arith, ground arith)
check_token_claims_iff deep_equal policy (map_claims cs) claims = (
  (λ e.
      let same : cs ≡ claims = ground arith in
      (
        ap map_claims same,
        subst (λ x. IsMet deep_equal policy x) same
            ((check_iff deep_equal policy cs).0 (ground arith)),
      )),
  λ h. ground (arith, h.0, (check_iff deep_equal policy claims).1 h.1),
)

-- The library returns a token without an error only if the key function gives it a key, and the text
-- is signed under that key: `signed` is the verification of the token's own method.
module _ (equal_fold : Str → Str → Bool) (deep_equal : Claim → Claim → Bool)
    (parse_token : Str → (Token → Option Str) → Option Token) (signed : Str → Str → Bool)
    (verifies : (text : Str) (key_func : Token → Option Str) (token : Token)
      → parse_token text key_func ≡ some token
      → (key : Str) × (key_func token ≡ some key) × (signed text key ≡ true)) where
  -- A bearer token that the library accepts under the code's key function, signed by HMAC with the
  -- secret, valid, and with these claims.
  pub record IsBearer (secret authorization : Str) (claims : Claims) (text : Str) (token : Token)
      : Type 0 where
    pub carried : bearer_token equal_fold authorization ≡ some text
    pub parsed : parse_token text (signing_key secret) ≡ some token
    pub method : token.method ≡ hmac
    pub signature : signed text secret ≡ true
    pub valid : token.valid ≡ true
    pub named : token.claims ≡ map_claims claims

  key-IsSigned :
      (secret text : Str) (token : Token)
      → parse_token text (signing_key secret) ≡ some token
      → (token.method ≡ hmac) × (signed text secret ≡ true)
  unfolding signing_key
  key-IsSigned secret text token parsed =
      let (key, given, verified) = verifies text (signing_key secret) token parsed in
      (ground arith, subst (λ k. signed text k ≡ true) (ground arith) verified)

  -- If the JWT library returns a token only when the key function gives a key under which the text is
  -- signed, then a request that the JWT middleware lets through, with some claims, carries a bearer
  -- token that is signed by HMAC with the configured secret, which is not empty, that is valid and has
  -- those claims, and they meet the policy; and every such request is let through with those claims.
  pub require_jwt_iff :
      (secret authorization : Str) (policy : Policy) (claims : Claims)
      → (require_jwt equal_fold deep_equal parse_token secret policy authorization ≡ entered claims)
        ↔ ((is_empty secret ≡ false)
            × ((text : Str) × (token : Token) × IsBearer secret authorization claims text token)
            × IsMet deep_equal policy claims)
  unfolding require_jwt
  require_jwt_iff secret authorization policy claims = (to, from)
    where
      to :
          require_jwt equal_fold deep_equal parse_token secret policy authorization ≡ entered claims
          → (is_empty secret ≡ false)
            × ((text : Str) × (token : Token) × IsBearer secret authorization claims text token)
            × IsMet deep_equal policy claims
      to e = elim (Option-cases (bearer_token equal_fold authorization)) [
        | inl gone ↦ absurd (ground (arith, gone))
        | inr (text, found) ↦ elim (Option-cases (parse_token text (signing_key secret))) [
          | inl invalid ↦ absurd (ground (arith, found, invalid))
          | inr (token, parsed) ↦
              let (method, signature) = key-IsSigned secret text token parsed in
              let (named, met) =
                (check_token_claims_iff deep_equal policy token.claims claims).0
                  (ground (arith, found, parsed)) in
              let bearer : IsBearer secret authorization claims text token = record {
                carried = found;
                parsed = parsed;
                method = method;
                signature = signature;
                valid = ground (arith, found, parsed);
                named = named;
              } in
              (ground arith, (text, token, bearer), met)
        ]
      ]

      from :
          (is_empty secret ≡ false)
            × ((text : Str) × (token : Token) × IsBearer secret authorization claims text token)
            × IsMet deep_equal policy claims
          → require_jwt equal_fold deep_equal parse_token secret policy authorization
            ≡ entered claims
      from (configured, (text, token, bearer), met) = ground (
        arith,
        configured,
        bearer.carried,
        bearer.parsed,
        bearer.valid,
        (check_token_claims_iff deep_equal policy token.claims claims).1 (bearer.named, met),
      )
