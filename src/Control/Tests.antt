-- ===== src/Control/Tests.antt =====
-- Runs of pkg/runtime/controlplane.go, and the theorems at concrete inputs.
use mathlib.Core.List.{Memᴰ}
use fgoths_framework.Prelude.{
  is_some, ◌≡◌, ◌↔◌, refl, inl, Bool, true, false, List, [], ◌∷◌, ◌++◌, some, none, is_empty,
}
use fgoths_framework.Prelude.Int.{pos}
use fgoths_framework.Prelude.Text.{Str, codes, trim_space, text_functions}
use fgoths_framework.Prelude.Maps.{map_functions}
use fgoths_framework.Registry.State.{RoutePolicy, new_slo_policy, new_route_registry}
use fgoths_framework.Registry.Routes.{clean_policy, policy_error, register_policy}
use fgoths_framework.Registry.Routes
use fgoths_framework.Policies.Versions.{
  Versions, policy_key, replace_policy, new_policy_versioner, append_record, create, update_with,
  update, history,
}
use fgoths_framework.Policies.Numbering.{fresh_versioner}
use fgoths_framework.Control.PolicyHandlers.{
  updated_version, create_policy, update_policy, policy_status, update_status,
}
use fgoths_framework.Control.PolicyHandlers.{PolicyRequest}
use fgoths_framework.Policies.Versions.{PolicyVersioner}
use fgoths_framework.Control.PolicyReplies.{IsUpdated, update_policy-reports}
use fgoths_framework.Control.PolicyCalls.{PolicyCall, creating, updating, serve_policies}
use fgoths_framework.Governance.Gate.{new_approval_gate, approve, is_approved}
use fgoths_framework.Governance.Events.{record_event}
use fgoths_framework.Governance.Workflow
use fgoths_framework.Governance.Workflow.{approved, new_release_workflow, is_release_approved}
use fgoths_framework.Governance.Manifest.{new_deployment_manifest, validate_manifest}
use fgoths_framework.Governance.Events.{find_trimmed}
use fgoths_framework.Governance.Ledger.{
  DeploymentLedger, new_deployment_ledger, record_manifest, current,
}
use fgoths_framework.Control.Auth.{bearer, check_token, require_auth, require_auth_iff}
use fgoths_framework.Control.Routing.{
  ApiRoute, release, posts, on, approve_release, api_routing_table, is_param, match_route,
  split_path, handled, method_not_allowed, dispatch, first_match, route_api,
}
use fgoths_framework.Control.Exclusive.{api_routing_table-only}
use fgoths_framework.Control.Server
use fgoths_framework.Control.Server.{
  ReleaseRequest, ActorRequest, DeploymentRequest, status, workflow_state, new_control_plane,
  workflow_key, workflow_gate_key, set_workflow_gate, pending_workflow, create_release, workflow,
  get_release, with_approval, with_state, change_release, rollback_release, reject_release,
  conflict_or_invalid, create_deployment,
}
use fgoths_framework.Control.Backing.{ReleaseCall, creation, approving, get_release-approved}
use fgoths_framework.Control.Gates.{IsGated, created, create_release-blank_environment}
use fgoths_framework.Control.Deployments.{create_deployment-prod}

control : Unit {0}
unfolding current find_trimmed text_functions map_functions new_slo_policy new_approval_gate approve
    is_approved record_event new_release_workflow is_release_approved Workflow.approve_release
    Workflow.rollback Workflow.reject new_deployment_manifest validate_manifest
    new_deployment_ledger record_manifest check_token require_auth api_routing_table is_param
    match_route split_path dispatch first_match route_api new_control_plane workflow_key
    workflow_gate_key set_workflow_gate pending_workflow create_release workflow get_release
    with_approval with_state change_release Server.approve_release rollback_release reject_release
    conflict_or_invalid create_deployment new_route_registry clean_policy policy_error
    register_policy Routes.get_policy policy_key replace_policy new_policy_versioner append_record
    create update_with update history create_policy update_policy policy_status update_status
control = tt

require_auth_iff_example : (require_auth (codes " key ") (codes "Bearer key") ≡ none) ↔ (
    (is_empty (trim_space (codes " key ")) ≡ false)
    × (codes "Bearer key" ≡ bearer ++ trim_space (codes " key ")))
require_auth_iff_example = require_auth_iff (codes " key ") (codes "Bearer key")

abbrev shop_parts : List Str
shop_parts = codes "releases" ∷ codes "shop" ∷ codes "prod" ∷ codes "v1" ∷ codes "approve" ∷ []

abbrev approve_route : ApiRoute
approve_route = on (release (codes "approve" ∷ [])) (posts approve_release)

api_routing_table-only_example :
    first_match (codes "POST") shop_parts api_routing_table
    ≡ dispatch
        (codes "POST")
        (posts approve_release)
        (codes "shop" ∷ codes "prod" ∷ codes "v1" ∷ [])
unfolding control
api_routing_table-only_example =
    api_routing_table-only (codes "POST") shop_parts (codes "shop" ∷ codes "prod" ∷ codes "v1" ∷ [])
      approve_route
      (Memᴰ.tail (
        Memᴰ.tail
          (Memᴰ.tail (Memᴰ.tail (Memᴰ.tail (Memᴰ.tail (Memᴰ.tail (Memᴰ.tail (Memᴰ.head refl)))))))))
      refl

approving_path :
    route_api (codes "POST") (codes "/api/v1/releases/shop/prod/v1/approve/")
    ≡ handled approve_release (codes "shop" ∷ codes "prod" ∷ codes "v1" ∷ [])
unfolding control
approving_path = refl

reading_approve :
    route_api (codes "GET") (codes "/api/v1/releases/shop/prod/v1/approve") ≡ method_not_allowed
unfolding control
reading_approve = refl

abbrev shop : ReleaseRequest
shop = record { service = codes "shop"; environment = codes "prod"; version = codes "v1" }

abbrev ann : ActorRequest
ann = record { actor = codes "ann"; reason = [] }

abbrev calls : List ReleaseCall
calls =
    creation (some shop)
    ∷ approving (codes "shop") (codes "prod") (codes "v1") none
    ∷ approving (codes "shop") (codes "prod") (codes "v1") (some ann)
    ∷ []

get_release-approved_example : true ≡ true
unfolding control
get_release-approved_example =
    get_release-approved (pos 1) calls (codes "shop") (codes "prod") (codes "v1") true refl

create_release-blank_environment_example :
    IsGated
      (pos 1)
      (codes "shop")
      []
      (codes "v1")
      (created (pos 1) (pos 3) (codes "shop") [] (codes "v1"))
    × IsGated
        (pos 3)
        (codes "shop")
        (codes "prod")
        (codes "v1")
        (created (pos 1) (pos 3) (codes "shop") (codes "prod") (codes "v1"))
unfolding control
create_release-blank_environment_example =
    create_release-blank_environment (pos 1) (pos 3) (codes "shop") (codes "v1") refl

abbrev saves : DeploymentLedger → Bool
saves l = true

abbrev deployment : DeploymentRequest
deployment = record {
  service = codes "shop";
  environment = [];
  version = codes "v1";
  audit = codes "checked" ∷ [];
}

create_deployment-prod_example :
    create_deployment saves (some deployment) (new_control_plane (pos 1))
    ≡ (new_control_plane (pos 1), status 422)
create_deployment-prod_example =
    create_deployment-prod saves deployment (new_control_plane (pos 1)) (inl refl)

-- With a space before it, "prod" misses what is asked of production, and the deployment is recorded,
-- as the current one of production.
padded_prod_recorded :
    let (cp, reply) =
      create_deployment saves
        (some (record deployment { environment = codes " prod" }))
        (new_control_plane (pos 1)) in
    (reply ≡ status 201) × (is_some (current (codes "shop") (codes "prod") cp.ledger) ≡ true)
unfolding control
padded_prod_recorded = (refl, refl)

-- For another environment the deployment is recorded.
staging_recorded :
    (create_deployment saves
      (some (record deployment { environment = codes "staging" }))
      (new_control_plane (pos 1))).1
    ≡ status 201
unfolding control
staging_recorded = refl

abbrev draft : RoutePolicy
draft = record {
  name = codes "checkout";
  environment = codes "prod";
  service = codes "shop";
  allowed_tenants = [];
  allowed_regions = [];
  require_signed_artifacts = false;
  require_audit = false;
  slo = none;
}

abbrev keeps : Versions → Bool
keeps m = true

abbrev policy_calls : List PolicyCall
policy_calls =
    creating none
    ∷ creating (some (record { policy = draft; actor = codes "ann"; reason = [] }))
    ∷ updating (codes "checkout") (
        some (record {
          policy = record draft { require_audit = true };
          actor = codes "bob";
          reason = [];
        }))
    ∷ []

-- The body has another name than the path.
abbrev renamed : PolicyRequest
renamed = record {
  policy = record draft { name = codes "other"; require_audit = true };
  actor = codes "bob";
  reason = [];
}

abbrev after_creation : PolicyVersioner
after_creation =
    serve_policies keeps
      (creating (some (record { policy = draft; actor = codes "ann"; reason = [] })) ∷ [])
      fresh_versioner

update_policy-reports_example :
    IsUpdated keeps
      (codes "checkout")
      renamed
      after_creation
      (update_policy keeps (codes "checkout") (some renamed) after_creation).0
      2
unfolding control
update_policy-reports_example =
    update_policy-reports keeps (codes "checkout") renamed after_creation 2 refl refl

-- The second version is reported.
update_reported :
    (update_policy keeps
      (codes "checkout")
      (some (record {
        policy = record draft { require_audit = true };
        actor = codes "bob";
        reason = [];
      }))
      (create_policy keeps
        (some (record { policy = draft; actor = codes "ann"; reason = [] }))
        fresh_versioner).0).1
    ≡ updated_version 2
unfolding control
update_reported = refl
