-- ===== src/Control/Deployments.antt =====
-- Deployments to production through the API (pkg/runtime/controlplane.go).
use fgoths_framework.Prelude.{◌≡◌, ◌⊎◌, inl, inr, refl, Bool, [], some, arith}
use fgoths_framework.Prelude.Text.{codes, str_eq_iff, trim_space, text_functions}
use fgoths_framework.Governance.Manifest.{
  new_deployment_manifest, validate_manifest, fill_policy, manifest_error,
}
use fgoths_framework.Governance.Ledger.{DeploymentLedger, record_manifest}
use fgoths_framework.Control.Server.{
  ControlPlane, status, DeploymentRequest, conflict_or_invalid, create_deployment,
}

trim-prod : trim_space (codes "prod") ≡ codes "prod"
unfolding text_functions
trim-prod = refl

-- A deployment request with no environment or exactly "prod" for it cannot be recorded through the
-- API: whatever its service, version and audit, it is answered with 422 and changes nothing, as the
-- manifest made from it has no lists of tenants and regions.
pub create_deployment-prod :
    (save : DeploymentLedger → Bool) (body : DeploymentRequest) (cp : ControlPlane)
    → (body.environment ≡ []) ⊎ (body.environment ≡ codes "prod")
    → create_deployment save (some body) cp ≡ (cp, status 422)
unfolding create_deployment record_manifest validate_manifest fill_policy manifest_error
    new_deployment_manifest conflict_or_invalid
create_deployment-prod save body cp (inl e) =
    ground (arith, e, trim-prod, str_eq_iff (codes "prod") (codes "prod"))
create_deployment-prod save body cp (inr e) =
    ground (arith, e, trim-prod, str_eq_iff (codes "prod") (codes "prod"))
