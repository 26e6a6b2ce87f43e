-- ===== src/Governance/Tests.antt =====
-- Runs of pkg/runtime/governance.go, and the theorems at concrete inputs.
use fgoths_framework.Prelude.{◌≡◌, refl, true, List, [], ◌∷◌, some}
use fgoths_framework.Prelude.Int.{pos}
use fgoths_framework.Prelude.Text.{Str, codes, text_functions}
use fgoths_framework.Prelude.Maps.{map_functions}
use fgoths_framework.Registry.State.{new_slo_policy}
use fgoths_framework.Governance.Gate.{ApprovalGate, new_approval_gate, approve, is_approved}
use fgoths_framework.Governance.Events.{DeploymentEventLog, record_event, history, latest}
use fgoths_framework.Governance.Workflow.{
  ReleaseWorkflow, new_release_workflow, rejected, is_release_approved, approve_release, reject,
  rollback,
}
use fgoths_framework.Governance.Approvals.{approve_all, IsGate, approve_all-IsGate}
use fgoths_framework.Governance.Transitions.{Action, approval, reject_by, run, run_approved}
use fgoths_framework.Governance.Manifest.{
  DeploymentManifest, version_exists, prod_allowlists, new_deployment_manifest, validate_manifest,
  register_manifest,
}
use fgoths_framework.Governance.Ledger.{
  new_deployment_ledger, record_manifest, current, past_manifests,
}
use fgoths_framework.Governance.Releases.{record_all, IsLedger, record_all-IsLedger}

governance : Unit {0}
unfolding text_functions map_functions new_approval_gate approve is_approved record_event history
    latest new_release_workflow is_release_approved approve_release reject rollback
    new_deployment_manifest validate_manifest register_manifest new_deployment_ledger
    record_manifest current past_manifests new_slo_policy
governance = tt

abbrev actors : List Str
actors = codes "ann" ∷ [] ∷ codes "bob" ∷ codes "ann" ∷ []

approved_by :
    (approve_all (new_approval_gate (codes "prod") (pos 2)) actors).approvals
    ≡ codes "ann" ∷ codes "bob" ∷ []
unfolding governance
approved_by = refl

approve_all-IsGate_example :
    IsGate actors (approve_all (new_approval_gate (codes "prod") (pos 2)) actors)
approve_all-IsGate_example = approve_all-IsGate (codes "prod") (pos 2) actors

abbrev gate : ApprovalGate
gate = record { name = codes "prod"; required = pos 1; approvals = [] }

abbrev workflow : ReleaseWorkflow
workflow = record (new_release_workflow (codes "shop") [] (codes "v1")) { gate = some gate }

abbrev actions : List Action
actions =
    approval (codes "ann") ∷ reject_by (codes "bob") (codes "late") ∷ approval (codes "eve") ∷ []

rejected_state : (run workflow actions).state ≡ rejected
unfolding governance
rejected_state = refl

run_approved_example :
    is_release_approved (
      run
        (record (new_release_workflow (codes "shop") [] (codes "v1")) { gate = some gate })
        (approval (codes "ann") ∷ []))
    ≡ true
unfolding governance
run_approved_example =
    run_approved (codes "shop") [] (codes "v1") (some gate) (approval (codes "ann") ∷ []) refl

abbrev log : DeploymentEventLog
log = []

abbrev manifest : Str → DeploymentManifest
manifest version =
    let m = new_deployment_manifest (codes "staging") (codes "shop") version in
    record m { audit = codes "reviewed" ∷ [] }

abbrev releases : List DeploymentManifest
releases = manifest (codes "v1") ∷ manifest (codes "v2") ∷ manifest (codes "v1") ∷ []

second_is_current :
    current (codes " shop") (codes "staging") (record_all new_deployment_ledger releases)
    ≡ some (manifest (codes "v2"))
unfolding governance
second_is_current = refl

no_version_twice :
    (record_manifest (manifest (codes "v1")) (record_all new_deployment_ledger releases)).1
    ≡ some version_exists
unfolding governance
no_version_twice = refl

fresh_prod_manifest :
    (validate_manifest (new_deployment_manifest [] (codes "shop") (codes "v1"))).1
    ≡ some prod_allowlists
unfolding governance
fresh_prod_manifest = refl

record_all-IsLedger_example : IsLedger (record_all new_deployment_ledger releases)
record_all-IsLedger_example = record_all-IsLedger releases
