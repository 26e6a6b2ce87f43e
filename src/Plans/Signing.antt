-- ===== src/Plans/Signing.antt =====
-- Signing an artifact and verifying it (pkg/runtime/artifacts.go).
use fgoths_framework.Prelude.{◌≡◌, ◌↔◌, false, none, arith, is_empty}
use fgoths_framework.Prelude.Text.{Str, str_eq_iff, trim_space}
use fgoths_framework.Plans.Artifacts.{ArtifactProvenance, set_content, sign, verify}

-- Whatever is hashed, its digits are not blank.
abbrev pub IsNamed : (Str → Str) → Type 0
IsNamed hash = (s : Str) → is_empty (trim_space (hash s)) ≡ false

-- An artifact that is signed, given other content or the same, and then verified, under another secret
-- or the same, passes exactly if the content is not blank and has under the second secret the
-- signature that the signed content has under the first: without a change it passes, and a change that
-- passes is a collision of HMAC. The hash of any content is assumed not to be blank.
pub verify-sign_iff :
    (sha256_hex : Str → Str) (hmac_signature : Str → Str → Str)
    (content content' secret secret' source : Str) (p : ArtifactProvenance)
    → IsNamed sha256_hex
    → let signed = sign hmac_signature secret source (set_content sha256_hex content p) in
      (verify sha256_hex hmac_signature secret' (set_content sha256_hex content' signed) ≡ none) ↔ (
        (is_empty (trim_space content') ≡ false)
        × (hmac_signature secret' content' ≡ hmac_signature secret content))
unfolding set_content sign verify
verify-sign_iff sha256_hex hmac_signature content content' secret secret' source p named = ground (
  arith,
  named content',
  str_eq_iff (hmac_signature secret' content') (hmac_signature secret content),
  str_eq_iff (sha256_hex content') (sha256_hex content'),
)
