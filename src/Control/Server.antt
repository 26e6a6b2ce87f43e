-- ===== src/Control/Server.antt =====
-- ControlPlaneServer and its handlers for releases and deployments (pkg/runtime/controlplane.go). A
-- body is what decodeJSON reads, `none` if it is malformed. Of a reply the status is kept, and of one
-- about a workflow its state and whether it is approved. The store is its answer to Save.
use fgoths_framework.Prelude.{
  ℕ, Bool, ◌||◌, ◌++◌, List, [], ◌∷◌, Option, none, some, is_empty, is_some, if◌then◌else◌,
}
use fgoths_framework.Prelude.Int.{ℤ, pos, leb_ℤ}
use fgoths_framework.Prelude.Text.{Str, trim_space}
use fgoths_framework.Prelude.Maps.{Map, lookup, insert}
use fgoths_framework.Governance.Gate.{new_approval_gate}
use fgoths_framework.Governance.Workflow
use fgoths_framework.Governance.Workflow.{
  State, ReleaseWorkflow, new_release_workflow, is_release_approved,
}
use fgoths_framework.Governance.Manifest.{ManifestError, new_deployment_manifest}
use fgoths_framework.Governance.Ledger.{DeploymentLedger, new_deployment_ledger, record_manifest}

pub record ControlPlane : Type 0 where
  pub ledger : DeploymentLedger
  pub workflows : Map ReleaseWorkflow
  pub workflow_gates : Map ℤ
  pub approval_requirement : ℤ

unfoldable pub new_control_plane : ℤ → ControlPlane
unfolding new_deployment_ledger
new_control_plane approval_requirement = record {
  ledger = new_deployment_ledger;
  workflows = [];
  workflow_gates = [];
  approval_requirement = approval_requirement;
}

unfoldable pub workflow_key : (service environment version : Str) → Str
workflow_key service environment version = service ++ (b'/' ∷ (environment ++ (b'/' ∷ version)))

unfoldable pub workflow_gate_key : (service environment : Str) → Str
workflow_gate_key service environment = trim_space service ++ (b'/' ∷ trim_space environment)

abbrev pub at_least_one : ℤ → ℤ
at_least_one n = if leb_ℤ n (pos 0) then pos 1 else n

unfoldable pub set_workflow_gate : (service environment : Str) → ℤ → ControlPlane → ControlPlane
unfolding workflow_gate_key
set_workflow_gate service environment required cp =
    if is_empty (trim_space service) || is_empty (trim_space environment) then cp else record cp {
      workflow_gates =
          insert (workflow_gate_key (trim_space service) (trim_space environment))
            (at_least_one required) cp.workflow_gates;
    }

pub data Reply : Type 0 where
  status : ℕ → Reply
  workflow_state : ℕ → State → (approved : Bool) → Reply
  state_only : ℕ → State → Reply

pub record ReleaseRequest : Type 0 where
  pub service : Str
  pub environment : Str
  pub version : Str

pub record ActorRequest : Type 0 where
  pub actor : Str
  pub reason : Str

abbrev pub or_else : ℤ → Option ℤ → ℤ
or_else n none = n
or_else n (some m) = m

-- The workflow that a release starts with.
unfoldable pub pending_workflow : ReleaseRequest → ControlPlane → ReleaseWorkflow
unfolding workflow_key workflow_gate_key new_release_workflow new_approval_gate
pending_workflow body cp =
    let scoped = lookup (workflow_gate_key body.service body.environment) cp.workflow_gates in
    record (new_release_workflow body.service body.environment body.version) {
      gate = some (
          new_approval_gate (workflow_key body.service body.environment body.version)
            (at_least_one (or_else cp.approval_requirement scoped)));
    }

unfoldable pub create_release : Option ReleaseRequest → ControlPlane → ControlPlane × Reply
unfolding pending_workflow workflow_key
create_release none cp = (cp, status 400)
create_release (some body) cp =
    let key = workflow_key body.service body.environment body.version in
    if is_some (lookup key cp.workflows)
    then (cp, status 409)
    else (record cp { workflows = insert key (pending_workflow body cp) cp.workflows }, status 201)

unfoldable pub workflow :
    (service environment version : Str) → ControlPlane → Option ReleaseWorkflow
unfolding workflow_key
workflow service environment version cp =
    lookup (workflow_key service environment version) cp.workflows

unfoldable pub get_release : (service environment version : Str) → ControlPlane → Reply
unfolding workflow is_release_approved
get_release service environment version cp = elim (workflow service environment version cp) [
  | none ↦ status 404
  | some w ↦ workflow_state 200 w.state (is_release_approved w)
]

-- What approveRelease, rollbackRelease and rejectRelease share: they change the workflow, which the map
-- holds by a pointer, also if the call returns an error. No message of such an error has the words
-- "already exists".
-- The replies of approveRelease, and of rollbackRelease and rejectRelease.
unfoldable pub with_approval : ReleaseWorkflow → Reply
unfolding is_release_approved
with_approval w = workflow_state 200 w.state (is_release_approved w)

unfoldable pub with_state : ReleaseWorkflow → Reply
with_state w = state_only 200 w.state

unfoldable pub change_release :
    (reply : ReleaseWorkflow → Reply)
    → (ReleaseWorkflow → ActorRequest → ReleaseWorkflow × Bool)
    → (service environment version : Str) → Option ActorRequest
    → ControlPlane
    → ControlPlane × Reply
unfolding workflow workflow_key
change_release reply change service environment version none cp = (cp, status 400)
change_release reply change service environment version (some body) cp =
    elim (workflow service environment version cp) [
      | none ↦ (cp, status 404)
      | some w ↦
          let (w', fine) = change w body in
          (
            record cp {
              workflows = insert (workflow_key service environment version) w' cp.workflows;
            },
            if fine then reply w' else status 422,
          )
    ]

unfoldable pub approve_release :
    (service environment version : Str) → Option ActorRequest → ControlPlane → ControlPlane × Reply
unfolding change_release with_approval
approve_release = change_release with_approval (λ w body. Workflow.approve_release w body.actor)

unfoldable pub rollback_release :
    (service environment version : Str) → Option ActorRequest → ControlPlane → ControlPlane × Reply
unfolding change_release with_state
rollback_release = change_release with_state (λ w body. Workflow.rollback w body.actor body.reason)

unfoldable pub reject_release :
    (service environment version : Str) → Option ActorRequest → ControlPlane → ControlPlane × Reply
unfolding change_release with_state
reject_release = change_release with_state (λ w body. Workflow.reject w body.actor body.reason)

pub record DeploymentRequest : Type 0 where
  pub service : Str
  pub environment : Str
  pub version : Str
  pub audit : List Str

-- The status of an error by its message: only that of a version which the ledger has says "already
-- exists".
unfoldable pub conflict_or_invalid : ManifestError → ℕ
conflict_or_invalid ManifestError.version_exists = 409
conflict_or_invalid e = 422

module _ (save : DeploymentLedger → Bool) where
  unfoldable pub create_deployment : Option DeploymentRequest → ControlPlane → ControlPlane × Reply
  unfolding conflict_or_invalid new_deployment_manifest record_manifest
  create_deployment none cp = (cp, status 400)
  create_deployment (some body) cp =
      let manifest = record (new_deployment_manifest body.environment body.service body.version) {
        audit = body.audit;
      } in
      let (ledger, error) = record_manifest manifest cp.ledger in
      elim error [
        | some e ↦ (cp, status (conflict_or_invalid e))
        | none ↦ (record cp { ledger = ledger }, status (if save ledger then 201 else 500))
      ]
