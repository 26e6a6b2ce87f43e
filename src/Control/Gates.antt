-- ===== src/Control/Gates.antt =====
-- Which gate a release gets (pkg/runtime/controlplane.go).
use fgoths_framework.Prelude.{
  ◌≡◌, refl, true, false, [], ◌∷◌, ◌++◌, Option, some, none, arith, is_empty, inl, inr, Bool-cases,
  if◌then◌else◌, ap, sym, ◌∙◌,
}
use fgoths_framework.Prelude.Int.{ℤ}
use fgoths_framework.Prelude.Text.{
  Str, codes, str_eq, str_eq_iff, trim_space, trim_space_idem, text_functions,
}
use fgoths_framework.Prelude.Maps.{lookup, insert, lookup-insert_self}
use fgoths_framework.Governance.Gate.{new_approval_gate}
use fgoths_framework.Governance.Workflow.{ReleaseWorkflow, new_release_workflow}
use fgoths_framework.Control.Server.{
  ControlPlane, new_control_plane, workflow_key, workflow_gate_key, at_least_one, set_workflow_gate,
  or_else, ReleaseRequest, pending_workflow, create_release, workflow,
}

append-cancel : (s t u : Str) → s ++ t ≡ s ++ u → t ≡ u
append-cancel [] t u e = e
append-cancel (a ∷ s) t u e = append-cancel s t u (ground (arith, e))

trim-prod : trim_space (codes "prod") ≡ codes "prod"
unfolding text_functions
trim-prod = refl

trim-nil : trim_space [] ≡ []
unfolding text_functions
trim-nil = refl

-- The requirement of a release after a gate is set for "prod".
abbrev required_after : (n required : ℤ) (service environment : Str) → ℤ
required_after n required service environment =
    let cp = set_workflow_gate service (codes "prod") required (new_control_plane n) in
    or_else cp.approval_requirement
      (lookup (workflow_gate_key service environment) cp.workflow_gates)

prod_key :
    (service : Str)
    → workflow_gate_key (trim_space service) (trim_space (codes "prod"))
      ≡ trim_space service ++ (b'/' ∷ codes "prod")
unfolding workflow_gate_key
prod_key service =
    ap (λ s. s ++ (b'/' ∷ trim_space (trim_space (codes "prod")))) (trim_space_idem service)
    ∙ ap (λ t. trim_space service ++ (b'/' ∷ t)) (ap trim_space trim-prod ∙ trim-prod)

nil_key : (service : Str) → workflow_gate_key service [] ≡ trim_space service ++ (b'/' ∷ [])
unfolding workflow_gate_key
nil_key service = ap (λ t. trim_space service ++ (b'/' ∷ t)) trim-nil

keys-apart :
    (service : Str)
    → str_eq
        (workflow_gate_key (trim_space service) (trim_space (codes "prod")))
        (workflow_gate_key service [])
      ≡ false
unfolding workflow_gate_key
keys-apart service =
    let k = workflow_gate_key (trim_space service) (trim_space (codes "prod")) in
    let j = workflow_gate_key service [] in
    elim (Bool-cases (str_eq k j)) [
      | inl same ↦
          let e : trim_space service ++ (b'/' ∷ codes "prod") ≡ trim_space service ++ (b'/' ∷ []) =
            sym (prod_key service) ∙ (str_eq_iff k j).0 same ∙ nil_key service in
          let f = append-cancel (trim_space service) (b'/' ∷ codes "prod") (b'/' ∷ []) e in
          absurd (ground (arith, f))
      | inr other ↦ other
    ]

keys-same :
    (service : Str)
    → str_eq
        (workflow_gate_key (trim_space service) (trim_space (codes "prod")))
        (workflow_gate_key service (codes "prod"))
      ≡ true
unfolding workflow_gate_key
keys-same service =
    (str_eq_iff (workflow_gate_key (trim_space service) (trim_space (codes "prod")))
        (workflow_gate_key service (codes "prod"))).1
      (prod_key service ∙ ap (λ t. trim_space service ++ (b'/' ∷ t)) (sym trim-prod))

required-blank :
    (n required : ℤ) (service : Str)
    → is_empty (trim_space service) ≡ false
    → (required_after n required service [] ≡ n)
      × (required_after n required service (codes "prod") ≡ at_least_one required)
unfolding set_workflow_gate new_control_plane lookup insert
required-blank n required service e = (
  ground (arith, e, trim-prod, keys-apart service),
  ground (arith, e, trim-prod, keys-same service),
)

create_release-workflow :
    (body : ReleaseRequest) (cp : ControlPlane)
    → lookup (workflow_key body.service body.environment body.version) cp.workflows ≡ none
    → workflow body.service body.environment body.version (create_release (some body) cp).0
      ≡ some (pending_workflow body cp)
unfolding create_release workflow
create_release-workflow body cp free =
    let key = workflow_key body.service body.environment body.version in
    ground (arith, free, lookup-insert_self key (pending_workflow body cp) cp.workflows)

-- The release that is created for the service, after a gate is set for it and "prod".
abbrev pub created : (n required : ℤ) (service environment version : Str) → Option ReleaseWorkflow
created n required service environment version =
    let cp = set_workflow_gate service (codes "prod") required (new_control_plane n) in
    let body : ReleaseRequest = record {
      service = service;
      environment = environment;
      version = version;
    } in
    workflow service environment version (create_release (some body) cp).0

-- A workflow for "prod" with a gate that needs so many approvals.
abbrev pub IsGated : ℤ → (service environment version : Str) → Option ReleaseWorkflow → Type 0
IsGated required service environment version o =
    (w : ReleaseWorkflow) × (o ≡ some w)
    × (w.environment ≡ codes "prod")
    × (w.gate
        ≡ some
            (new_approval_gate (workflow_key service environment version) (at_least_one required)))

created-IsGated :
    (n required count : ℤ) (service environment version : Str)
    → required_after n required service environment ≡ count
    → (if is_empty environment then codes "prod" else environment) ≡ codes "prod"
    → IsGated count service environment version (created n required service environment version)
unfolding pending_workflow new_release_workflow set_workflow_gate new_control_plane lookup
created-IsGated n required count service environment version c e =
    let cp = set_workflow_gate service (codes "prod") required (new_control_plane n) in
    let body : ReleaseRequest = record {
      service = service;
      environment = environment;
      version = version;
    } in
    (
      pending_workflow body cp,
      create_release-workflow body cp (ground arith),
      e,
      ap (λ m. some (new_approval_gate (workflow_key service environment version) (at_least_one m)))
          c,
    )

-- A release that is created without an environment is one for "prod" in its workflow, but does not get
-- the gate that SetWorkflowGate set for the service and "prod", which a release that says "prod" gets:
-- it needs the approvals that are the default of the control plane.
pub create_release-blank_environment :
    (n required : ℤ) (service version : Str)
    → is_empty (trim_space service) ≡ false
    → IsGated n service [] version (created n required service [] version)
      × IsGated
          (at_least_one required)
          service
          (codes "prod")
          version
          (created n required service (codes "prod") version)
create_release-blank_environment n required service version e =
    let (blank, named) = required-blank n required service e in
    (
      created-IsGated n required n service [] version blank refl,
      created-IsGated n required (at_least_one required) service (codes "prod") version named refl,
    )
