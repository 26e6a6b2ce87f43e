-- ===== src/Plans/Stages.antt =====
-- What a validated promotion has (pkg/runtime/governance.go).
use fgoths_framework.Prelude.{
  ℕ, ◌≡◌, true, false, Option, none, some, is_some, arith, is_empty, ◌||◌, refl,
}
use fgoths_framework.Prelude.Text.{Str, str_eq_iff, trim_space}
use fgoths_framework.Plans.Artifacts.{ArtifactProvenance, verify}
use fgoths_framework.Plans.Release.{PlanError, gate_open}
use fgoths_framework.Plans.Promotion.{
  PromotionPlan, prod, fill_promotion, stage_error, promotion_error, validate_promotion,
}
use fgoths_framework.Plans.Readiness.{artifact_error-verify}

-- The guards of a target stage.
pub record IsStaged (p : PromotionPlan) : Type 0 where
  pub environment : p.policy.environment ≡ p.target
  pub service : p.policy.service ≡ p.service
  pub guarded :
      (p.policy.require_signed_artifacts || p.policy.require_audit) ≡ true
      → is_some p.policy.slo ≡ true
  pub prod_audit : p.target ≡ prod → p.policy.require_audit ≡ true
  pub prod_signed : p.target ≡ prod → p.policy.require_signed_artifacts ≡ true
  pub prod_tenants : p.target ≡ prod → is_empty p.policy.allowed_tenants ≡ false
  pub prod_regions : p.target ≡ prod → is_empty p.policy.allowed_regions ≡ false

stage_error-IsStaged : (p : PromotionPlan) → stage_error p ≡ none → IsStaged p
unfolding stage_error
stage_error-IsStaged p e = record {
  environment = ground (arith, str_eq_iff p.policy.environment p.target);
  service = ground (arith, str_eq_iff p.policy.service p.service);
  guarded = λ h. ground arith;
  prod_audit = λ h. ground (arith, str_eq_iff p.target prod);
  prod_signed = λ h. ground (arith, str_eq_iff p.target prod);
  prod_tenants = λ h. ground (arith, str_eq_iff p.target prod);
  prod_regions = λ h. ground (arith, str_eq_iff p.target prod);
}

module _ (sha256_hex : Str → Str) (hmac_signature : Str → Str → Str) where
  pub record IsApproved (secret : Str) (p : PromotionPlan) : Type 0 where
    pub service : is_empty (trim_space p.service) ≡ false
    pub target : is_empty (trim_space p.target) ≡ false
    pub gate : gate_open p.gate ≡ true
    pub artifact :
        (a : ArtifactProvenance) × (p.artifact ≡ some a)
        × (verify sha256_hex hmac_signature secret a ≡ none)

  promotion_error-IsApproved :
      (secret : Str) (p : PromotionPlan)
      → promotion_error sha256_hex hmac_signature secret p ≡ none
      → IsApproved secret p
  unfolding promotion_error
  promotion_error-IsApproved secret p e = record {
    service = ground arith;
    target = ground arith;
    gate = ground arith;
    artifact = artifact_error-verify sha256_hex hmac_signature secret p.artifact (ground arith);
  }

  -- A promotion that Validate accepts has an approved gate and an artifact that verifies, and its policy,
  -- the blanks of which are filled from the plan, names the plan's target and service, has an SLO if it
  -- asks for signatures or audit, and for "prod" asks for both and lists tenants and regions.
  pub validate_promotion-IsStaged :
      (secret : Str) (now : ℕ) (p : PromotionPlan)
      → (validate_promotion sha256_hex hmac_signature secret now p).1 ≡ none
      → IsApproved secret p × IsStaged (validate_promotion sha256_hex hmac_signature secret now p).0
  unfolding validate_promotion
  validate_promotion-IsStaged secret now p e =
      let q = fill_promotion p in
      split (promotion_error sha256_hex hmac_signature secret p) (stage_error q)
        (promotion_error-IsApproved secret p) (stage_error-IsStaged q) e
    where
      split :
          (first second : Option PlanError)
          → (first ≡ none → IsApproved secret p)
          → (second ≡ none → IsStaged (fill_promotion p))
          → let after : PromotionPlan × Option PlanError = elim first [
            | some e ↦ (p, some e)
            | none ↦ elim second [
              | some e ↦ (fill_promotion p, some e)
              | none ↦ (record (fill_promotion p) { approved_at = some now }, none)
            ]
          ] in
            after.1 ≡ none → IsApproved secret p × IsStaged after.0
      split none none a b e =
          let s = b refl in
          (
            a refl,
            record {
              environment = s.environment;
              service = s.service;
              guarded = s.guarded;
              prod_audit = s.prod_audit;
              prod_signed = s.prod_signed;
              prod_tenants = s.prod_tenants;
              prod_regions = s.prod_regions;
            },
          )
      split none (some x) a b e = cc
      split (some x) second a b e = cc
