-- ===== src/Plans/Readiness.antt =====
-- When a release plan is ready, and what its compliance report says (pkg/runtime/governance.go).
use fgoths_framework.Prelude.{
  ℕ, ◌≡◌, ◌↔◌, ◌≢◌, true, false, Option, none, some, is_some, arith, is_empty, ap, refl,
  if◌then◌else◌,
}
use fgoths_framework.Prelude.Text.{Str, str_eq_iff, trim_space}
use fgoths_framework.Plans.Artifacts.{ArtifactProvenance, ArtifactError, verify}
use fgoths_framework.Plans.Release.{
  ReleasePlan, PlanError, gate_open, artifact_error, plan_error, validate_plan,
  new_compliance_report,
}
use fgoths_framework.Plans.Signing.{IsNamed}

module _ (sha256_hex : Str → Str) (hmac_signature : Str → Str → Str) where
  -- What a release must have.
  pub record IsReleasable (secret : Str) (p : ReleasePlan) : Type 0 where
    pub service : is_empty (trim_space p.service) ≡ false
    pub gate : gate_open p.gate ≡ true
    pub artifact :
        (a : ArtifactProvenance) × (p.artifact ≡ some a)
        × (verify sha256_hex hmac_signature secret a ≡ none)
    pub slo : is_some p.slo ≡ true
    pub rollback : is_some p.rollback ≡ true
    pub runbook : is_empty (trim_space p.runbook) ≡ false

  pub artifact_error-verify :
      (secret : Str) (o : Option ArtifactProvenance)
      → artifact_error sha256_hex hmac_signature secret o ≡ none
      → (a : ArtifactProvenance) × (o ≡ some a) × (verify sha256_hex hmac_signature secret a ≡ none)
  artifact_error-verify secret none e = cc
  artifact_error-verify secret (some a) e = (a, refl, ground arith)

  plan_error_iff :
      (secret : Str) (p : ReleasePlan)
      → (plan_error sha256_hex hmac_signature secret p ≡ none) ↔ IsReleasable secret p
  unfolding plan_error
  plan_error_iff secret p = (to, from)
    where
      to : plan_error sha256_hex hmac_signature secret p ≡ none → IsReleasable secret p
      to e = record {
        service = ground arith;
        gate = ground arith;
        artifact = artifact_error-verify secret p.artifact (ground arith);
        slo = ground arith;
        rollback = ground arith;
        runbook = ground arith;
      }

      from : IsReleasable secret p → plan_error sha256_hex hmac_signature secret p ≡ none
      from r =
          let (a, e, v) = r.artifact in
          ground (arith, r.service, r.gate, e, v, r.slo, r.rollback, r.runbook)

  -- Validate marks the plan as approved at that instant exactly if it has all that a release must have,
  -- an approved gate and an artifact that verifies among it, and otherwise returns an error and leaves
  -- the plan as it was.
  pub validate_plan_iff :
      (secret : Str) (now : ℕ) (p : ReleasePlan)
      → let after = validate_plan sha256_hex hmac_signature secret now p in
        ((after.1 ≡ none) ↔ IsReleasable secret p)
        × (after.0 ≡ (if is_some after.1 then p else record p { approved_at = some now }))
  unfolding validate_plan
  validate_plan_iff secret now p =
      let (to, from) = plan_error_iff secret p in
      ((λ e. to (answer _ e), λ r. ap (λ o. (marked o).1) (from r)), plan _)
    where
      marked : Option PlanError → ReleasePlan × Option PlanError
      marked o = elim o [
        | some e ↦ (p, some e)
        | none ↦ (record p { approved_at = some now }, none)
      ]

      answer : (o : Option PlanError) → (marked o).1 ≡ none → o ≡ none
      answer none h = refl
      answer (some e) h = h

      plan :
          (o : Option PlanError)
          → (marked o).0 ≡ (if is_some (marked o).1 then p else record p { approved_at = some now })
      plan none = refl
      plan (some e) = refl

  -- The report of a plan that is ready says that it is compliant, if no signature is blank.
  ready-compliant :
      (secret : Str) (p : ReleasePlan)
      → ((s : Str) → IsNamed (hmac_signature s))
      → IsReleasable secret p
      → (new_compliance_report p).compliant ≡ true
  unfolding new_compliance_report verify
  ready-compliant secret p named r =
      let (a, e, v) = r.artifact in
      ground (
        arith,
        r.service,
        r.gate,
        e,
        v,
        r.slo,
        r.rollback,
        r.runbook,
        named secret a.content,
        str_eq_iff (hmac_signature secret a.content) a.signature,
      )

  -- The report checks no signature.
  compliant-unverified :
      (secret : Str) (p : ReleasePlan) (q : ArtifactProvenance)
      → (new_compliance_report p).compliant ≡ true
      → is_empty (trim_space q.signature) ≡ false
      → (new_compliance_report (record p { artifact = some q })).compliant ≡ true
  unfolding new_compliance_report
  compliant-unverified secret p q h s = ground (arith, h, s)

  -- A plan that is ready has a report that says it is compliant, and so has the same plan with any
  -- artifact whose signature is not blank and does not verify, which Validate refuses. No signature of
  -- HMAC is assumed to be blank.
  pub compliant-without_verifying :
      (secret : Str) (now : ℕ) (p : ReleasePlan) (q : ArtifactProvenance) (e : ArtifactError)
      → ((s : Str) → IsNamed (hmac_signature s))
      → IsReleasable secret p
      → is_empty (trim_space q.signature) ≡ false
      → verify sha256_hex hmac_signature secret q ≡ some e
      → let forged = record p { artifact = some q } in
        ((new_compliance_report p).compliant ≡ true)
        × ((new_compliance_report forged).compliant ≡ true)
        × ((validate_plan sha256_hex hmac_signature secret now forged).1 ≢ none)
  compliant-without_verifying secret now p q e named r s fails =
      let forged = record p { artifact = some q } in
      let compliant = ready-compliant secret p named r in
      (
        compliant,
        compliant-unverified secret p q compliant s,
        λ ok.
            let (a, found, v) = ((validate_plan_iff secret now forged).0.0 ok).artifact in
            refuted a found v,
      )
    where
      refuted :
          (a : ArtifactProvenance)
          → some q ≡ some a
          → verify sha256_hex hmac_signature secret a ≡ none
          → ⊥
      refuted a found v = cc
