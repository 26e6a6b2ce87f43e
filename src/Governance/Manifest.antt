-- ===== src/Governance/Manifest.antt =====
-- DeploymentManifest and DeploymentManifestRegistry of pkg/runtime/governance.go. The creation time is
-- left out. Validate changes its receiver, so it returns the manifest too.
use fgoths_framework.Prelude.{
  not, ◌&&◌, ◌||◌, List, [], Option, none, some, is_some, is_empty, if◌then◌else◌,
}
use fgoths_framework.Prelude.Int.{pos}
use fgoths_framework.Prelude.Float.{float}
use fgoths_framework.Prelude.Text.{Str, codes, str_eq, trim_space}
use fgoths_framework.Prelude.Maps.{Map, lookup2, insert2}
use fgoths_framework.Registry.State.{RoutePolicy, new_slo_policy}
use fgoths_framework.Governance.Events.{find_trimmed}

pub record DeploymentManifest : Type 0 where
  pub environment : Str
  pub service : Str
  pub version : Str
  pub policy : RoutePolicy
  pub audit : List Str

-- The errors of manifests, of their registry and of the ledger, one for each message.
pub data ManifestError : Type 0 where
  service_required environment_required prod_guards prod_allowlists : ManifestError
  signing_needs_slo audit_needs_slo environment_mismatch service_mismatch : ManifestError
  audit_required already_registered version_exists not_registered : ManifestError

abbrev pub prod : Str
prod = codes "prod"

unfoldable pub new_deployment_manifest : Str → Str → Str → DeploymentManifest
new_deployment_manifest environment service version =
    let env = if is_empty environment then prod else environment in
    record {
      environment = env;
      service = service;
      version = version;
      policy = record {
        name = [];
        environment = env;
        service = service;
        allowed_tenants = [];
        allowed_regions = [];
        require_signed_artifacts = str_eq env prod;
        require_audit = str_eq env prod;
        slo =
            if str_eq env prod
            then some (new_slo_policy (float 5 100) (pos 250) (float 2 100))
            else none;
      };
      audit = [];
    }

abbrev pub or_default : Str → Str → Str
or_default default s = if is_empty s then default else s

-- The blanks of the policy are filled from the manifest.
unfoldable pub fill_policy : DeploymentManifest → DeploymentManifest
fill_policy m = record m {
  policy = record (m.policy) {
    environment = or_default m.environment m.policy.environment;
    service = or_default m.service m.policy.service;
  };
}

-- The checks that follow, on the filled manifest.
unfoldable pub manifest_error : DeploymentManifest → Option ManifestError
manifest_error m =
    let guarded =
      m.policy.require_signed_artifacts && (m.policy.require_audit && is_some m.policy.slo) in
    if str_eq m.environment prod && not guarded
    then some prod_guards
    else if str_eq m.environment prod
        && (is_empty m.policy.allowed_tenants || is_empty m.policy.allowed_regions)
    then some prod_allowlists
    else if m.policy.require_signed_artifacts && not (is_some m.policy.slo)
    then some signing_needs_slo
    else if m.policy.require_audit && not (is_some m.policy.slo)
    then some audit_needs_slo
    else if not (str_eq m.policy.environment m.environment)
    then some environment_mismatch
    else if not (str_eq m.policy.service m.service)
    then some service_mismatch
    else if is_empty m.audit
    then some audit_required
    else none

-- `none` is Go's nil error.
unfoldable pub validate_manifest : DeploymentManifest → DeploymentManifest × Option ManifestError
unfolding fill_policy manifest_error
validate_manifest m =
    if is_empty (trim_space m.service)
    then (m, some service_required)
    else if is_empty (trim_space m.environment)
    then (m, some environment_required)
    else (fill_policy m, manifest_error (fill_policy m))

abbrev pub Manifests : Type 0
Manifests = Map (Map DeploymentManifest)

unfoldable pub admit : DeploymentManifest → Manifests → Manifests × Option ManifestError
admit m manifests =
    let service = trim_space m.service in
    let env = trim_space m.environment in
    if is_some (lookup2 service env manifests)
    then (manifests, some already_registered)
    else (insert2 service env m manifests, none)

unfoldable pub register_manifest : DeploymentManifest → Manifests → Manifests × Option ManifestError
unfolding validate_manifest admit
register_manifest m manifests =
    let (m', error) = validate_manifest m in
    elim error [ some e ↦ (manifests, some e) | none ↦ admit m' manifests ]

unfoldable pub get_manifest : Str → Str → Manifests → Option DeploymentManifest
unfolding find_trimmed
get_manifest = find_trimmed

unfoldable pub validate_registered : Str → Str → Manifests → Option ManifestError
unfolding get_manifest validate_manifest
validate_registered service environment manifests =
    elim (get_manifest service environment manifests) [
      | none ↦ some not_registered
      | some m ↦ (validate_manifest m).1
    ]
