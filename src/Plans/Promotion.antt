-- ===== src/Plans/Promotion.antt =====
-- PromotionPlan (pkg/runtime/governance.go). Validate fills blanks of the policy before the later
-- checks, so it returns the plan too.
use fgoths_framework.Prelude.{
  ℕ, not, ◌&&◌, ◌||◌, [], Option, none, some, is_some, is_empty, if◌then◌else◌,
}
use fgoths_framework.Prelude.Int.{pos}
use fgoths_framework.Prelude.Float.{float}
use fgoths_framework.Prelude.Text.{Str, codes, str_eq, trim_space}
use fgoths_framework.Registry.State.{RoutePolicy, new_slo_policy}
use fgoths_framework.Governance.Gate.{ApprovalGate}
use fgoths_framework.Plans.Artifacts.{ArtifactProvenance}
use fgoths_framework.Plans.Release.{
  PlanError, service_required, gate_required, not_approved, target_required, prod_guards,
  prod_allowlists, signing_needs_slo, audit_needs_slo, environment_mismatch, service_mismatch,
  gate_open, artifact_error,
}

pub record PromotionPlan : Type 0 where
  pub source : Str
  pub target : Str
  pub service : Str
  pub version : Str
  pub gate : Option ApprovalGate
  pub artifact : Option ArtifactProvenance
  pub policy : RoutePolicy
  pub approved_at : Option ℕ

abbrev pub prod : Str
prod = codes "prod"

abbrev pub or_default : Str → Str → Str
or_default default s = if is_empty s then default else s

unfoldable pub new_promotion_plan : (source target service version : Str) → PromotionPlan
new_promotion_plan source target service version =
    let to = or_default prod target in
    record {
      source = or_default (codes "staging") source;
      target = to;
      service = service;
      version = version;
      gate = none;
      artifact = none;
      policy = record {
        name = [];
        environment = to;
        service = service;
        allowed_tenants = [];
        allowed_regions = [];
        require_signed_artifacts = str_eq to prod;
        require_audit = str_eq to prod;
        slo =
            if str_eq to prod
            then some (new_slo_policy (float 5 100) (pos 250) (float 2 100))
            else none;
      };
      approved_at = none;
    }

unfoldable pub fill_promotion : PromotionPlan → PromotionPlan
fill_promotion p = record p {
  policy = record (p.policy) {
    environment = or_default p.target p.policy.environment;
    service = or_default p.service p.policy.service;
  };
}

-- The checks of the target stage, on the filled plan.
unfoldable pub stage_error : PromotionPlan → Option PlanError
stage_error p =
    let guarded =
      p.policy.require_signed_artifacts && (p.policy.require_audit && is_some p.policy.slo) in
    if str_eq p.target prod && not guarded
    then some prod_guards
    else if str_eq p.target prod
        && (is_empty p.policy.allowed_tenants || is_empty p.policy.allowed_regions)
    then some prod_allowlists
    else if p.policy.require_signed_artifacts && not (is_some p.policy.slo)
    then some signing_needs_slo
    else if p.policy.require_audit && not (is_some p.policy.slo)
    then some audit_needs_slo
    else if not (str_eq p.policy.environment p.target)
    then some environment_mismatch
    else if not (str_eq p.policy.service p.service)
    then some service_mismatch
    else none

module _ (sha256_hex : Str → Str) (hmac_signature : Str → Str → Str) where
  -- The checks before the policy is filled.
  unfoldable pub promotion_error : (secret : Str) → PromotionPlan → Option PlanError
  promotion_error secret p =
      if is_empty (trim_space p.service)
      then some service_required
      else if not (is_some p.gate)
      then some gate_required
      else if not (gate_open p.gate)
      then some not_approved
      else elim (artifact_error sha256_hex hmac_signature secret p.artifact) [
        | some e ↦ some e
        | none ↦ if is_empty (trim_space p.target) then some target_required else none
      ]

  unfoldable pub validate_promotion :
      (secret : Str) (now : ℕ) → PromotionPlan → PromotionPlan × Option PlanError
  unfolding promotion_error fill_promotion stage_error
  validate_promotion secret now p = elim (promotion_error secret p) [
    | some e ↦ (p, some e)
    | none ↦ elim (stage_error (fill_promotion p)) [
      | some e ↦ (fill_promotion p, some e)
      | none ↦ (record (fill_promotion p) { approved_at = some now }, none)
    ]
  ]
