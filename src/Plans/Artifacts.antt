-- ===== src/Plans/Artifacts.antt =====
-- ArtifactProvenance (pkg/runtime/artifacts.go). SHA-256 and HMAC-SHA256, in hexadecimal digits, are
-- parameters. The creation time is left out.
use fgoths_framework.Prelude.{Option, none, some, not, [], is_empty, if◌then◌else◌}
use fgoths_framework.Prelude.Text.{Str, codes, str_eq, trim_space}

pub record ArtifactProvenance : Type 0 where
  pub name : Str
  pub version : Str
  pub digest : Str
  pub signature : Str
  pub source : Str
  pub content : Str

pub data ArtifactError : Type 0 where
  content_empty digest_empty signature_mismatch digest_mismatch : ArtifactError

unfoldable pub new_artifact_provenance : (name version : Str) → ArtifactProvenance
new_artifact_provenance name version = record {
  name = if is_empty name then codes "unknown" else name;
  version = if is_empty version then codes "dev" else version;
  digest = [];
  signature = [];
  source = codes "fgoths-runtime";
  content = [];
}

module _ (sha256_hex : Str → Str) where
  unfoldable pub set_content : Str → ArtifactProvenance → ArtifactProvenance
  set_content content p = record p { content = content; digest = sha256_hex content }

module _ (hmac_signature : Str → Str → Str) where
  unfoldable pub sign : (secret source : Str) → ArtifactProvenance → ArtifactProvenance
  sign secret source p = record p {
    source = if is_empty (trim_space source) then p.source else source;
    signature = hmac_signature secret p.content;
  }

module _ (sha256_hex : Str → Str) (hmac_signature : Str → Str → Str) where
  unfoldable pub verify : (secret : Str) → ArtifactProvenance → Option ArtifactError
  verify secret p =
      if is_empty (trim_space p.content)
      then some content_empty
      else if is_empty (trim_space p.digest)
      then some digest_empty
      else if not (str_eq (hmac_signature secret p.content) p.signature)
      then some signature_mismatch
      else if not (str_eq (sha256_hex p.content) p.digest)
      then some digest_mismatch
      else none
