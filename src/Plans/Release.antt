-- ===== src/Plans/Release.antt =====
-- RollbackPlan, ReleasePlan and ComplianceReport (pkg/runtime/governance.go). The instant of approval
-- is an argument of Validate, which changes its receiver and so returns the plan too.
use fgoths_framework.Prelude.{
  ℕ, Bool, not, List, [], ◌∷◌, ◌++◌, Option, none, some, is_some, is_empty, length, leb,
  if◌then◌else◌,
}
use fgoths_framework.Prelude.Text.{Str, codes, trim_space}
use fgoths_framework.Registry.State.{SloPolicy}
use fgoths_framework.Governance.Gate.{ApprovalGate, is_approved}
use fgoths_framework.Plans.Artifacts.{ArtifactProvenance, ArtifactError, verify}

pub record RollbackPlan : Type 0 where
  pub reason : Str
  pub previous : Str
  pub steps : List Str
  pub triggered : Bool

unfoldable pub new_rollback_plan : (reason previous : Str) → List Str → RollbackPlan
new_rollback_plan reason previous steps = record {
  reason = if is_empty reason then codes "rollback requested" else reason;
  previous = if is_empty previous then codes "previous stable version" else previous;
  steps = steps;
  triggered = Bool.false;
}

pub record ReleasePlan : Type 0 where
  pub environment : Str
  pub service : Str
  pub version : Str
  pub gate : Option ApprovalGate
  pub artifact : Option ArtifactProvenance
  pub runbook : Str
  pub slo : Option SloPolicy
  pub rollback : Option RollbackPlan
  pub approved_at : Option ℕ

unfoldable pub new_release_plan : (environment service version : Str) → ReleasePlan
new_release_plan environment service version = record {
  environment = if is_empty environment then codes "prod" else environment;
  service = service;
  version = version;
  gate = none;
  artifact = none;
  runbook = [];
  slo = none;
  rollback = none;
  approved_at = none;
}

pub data PlanError : Type 0 where
  service_required gate_required not_approved artifact_required slo_required : PlanError
  rollback_required runbook_required target_required prod_guards prod_allowlists : PlanError
  signing_needs_slo audit_needs_slo environment_mismatch service_mismatch : PlanError
  signature_invalid : ArtifactError → PlanError

abbrev pub gate_open : Option ApprovalGate → Bool
gate_open none = Bool.false
gate_open (some g) = is_approved g

module _ (sha256_hex : Str → Str) (hmac_signature : Str → Str → Str) where
  -- The artifact is there and verifies.
  abbrev pub artifact_error : (secret : Str) → Option ArtifactProvenance → Option PlanError
  artifact_error secret none = some artifact_required
  artifact_error secret (some p) = elim (verify sha256_hex hmac_signature secret p) [
    | none ↦ none
    | some e ↦ some (signature_invalid e)
  ]

  unfoldable pub plan_error : (secret : Str) → ReleasePlan → Option PlanError
  plan_error secret p =
      if is_empty (trim_space p.service)
      then some service_required
      else if not (is_some p.gate)
      then some gate_required
      else if not (gate_open p.gate)
      then some not_approved
      else elim (artifact_error secret p.artifact) [
        | some e ↦ some e
        | none ↦
            if not (is_some p.slo)
            then some slo_required
            else if not (is_some p.rollback)
            then some rollback_required
            else if is_empty (trim_space p.runbook)
            then some runbook_required
            else none
      ]

  unfoldable pub validate_plan :
      (secret : Str) (now : ℕ) → ReleasePlan → ReleasePlan × Option PlanError
  unfolding plan_error
  validate_plan secret now p = elim (plan_error secret p) [
    | some e ↦ (p, some e)
    | none ↦ (record p { approved_at = some now }, none)
  ]

  unfoldable pub is_ready : (secret : Str) (now : ℕ) → ReleasePlan → ReleasePlan × Bool
  unfolding validate_plan
  is_ready secret now p = let (p', error) = validate_plan secret now p in (p', not (is_some error))

pub record ComplianceReport : Type 0 where
  pub environment : Str
  pub service : Str
  pub version : Str
  pub compliant : Bool
  pub evidence : List Str

abbrev pub has_signature : Option ArtifactProvenance → Bool
has_signature none = Bool.false
has_signature (some p) = not (is_empty (trim_space p.signature))

abbrev pub noted : Bool → Str → List Str
noted b what = if b then what ∷ [] else []

unfoldable pub new_compliance_report : ReleasePlan → ComplianceReport
new_compliance_report plan =
    let evidence =
      noted (gate_open plan.gate) (codes "approval gate satisfied")
      ++ (noted (has_signature plan.artifact) (codes "artifact signature verified")
          ++ (noted (is_some plan.slo) (codes "SLO guardrails defined")
              ++ (noted (is_some plan.rollback) (codes "rollback procedure defined")
                  ++ noted (not (is_empty (trim_space plan.runbook)))
                      (codes "deployment runbook available")))) in
    record {
      environment = plan.environment;
      service = plan.service;
      version = plan.version;
      compliant = leb 5 (length evidence);
      evidence = evidence;
    }
