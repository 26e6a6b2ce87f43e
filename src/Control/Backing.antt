-- ===== src/Control/Backing.antt =====
-- Approvals through the API (pkg/runtime/controlplane.go).
use fgoths_framework.Prelude.{
  ◌≡◌, refl, Bool, true, false, inl, inr, List, [], ◌∷◌, Option, none, some, arith, if◌then◌else◌,
  is_some, Bool-cases, ap, sym, subst, ◌∙◌,
}
use fgoths_framework.Prelude.Int.{ℤ}
use fgoths_framework.Prelude.Text.{Str, str_eq}
use fgoths_framework.Prelude.Maps.{lookup, insert, lookup-insert}
use fgoths_framework.Governance.Workflow
use fgoths_framework.Governance.Workflow.{
  State, approved, pending, ReleaseWorkflow, new_release_workflow, is_release_approved,
}
use fgoths_framework.Governance.Transitions.{approval, roll_back, reject_by, IsBacked, act-IsBacked}
use fgoths_framework.Control.Server.{
  ControlPlane, new_control_plane, workflow_key, set_workflow_gate, Reply, status, workflow_state,
  ReleaseRequest, ActorRequest, pending_workflow, create_release, workflow, get_release,
  with_approval, with_state, change_release, approve_release, rollback_release, reject_release,
}

-- The calls of the API on releases, with the bodies as they come.
pub data ReleaseCall : Type 0 where
  creation : Option ReleaseRequest → ReleaseCall
  approving rolling_back rejecting :
      (service environment version : Str) → Option ActorRequest → ReleaseCall
  gating : (service environment : Str) → (required : ℤ) → ReleaseCall

abbrev pub serve_call : ReleaseCall → ControlPlane → ControlPlane
serve_call (creation body) cp = (create_release body cp).0
serve_call (approving service environment version body) cp =
    (approve_release service environment version body cp).0
serve_call (rolling_back service environment version body) cp =
    (rollback_release service environment version body cp).0
serve_call (rejecting service environment version body) cp =
    (reject_release service environment version body cp).0
serve_call (gating service environment required) cp =
    set_workflow_gate service environment required cp

abbrev pub serve_calls : List ReleaseCall → ControlPlane → ControlPlane
serve_calls [] cp = cp
serve_calls (c ∷ cs) cp = serve_calls cs (serve_call c cp)

record AllBacked (cp : ControlPlane) : Type 0 where
  backed : (key : Str) (w : ReleaseWorkflow) → lookup key cp.workflows ≡ some w → IsBacked w

insert-AllBacked :
    (key : Str) (w : ReleaseWorkflow) (cp : ControlPlane)
    → IsBacked w
    → AllBacked cp
    → AllBacked (record cp { workflows = insert key w cp.workflows })
insert-AllBacked key w cp b all = record {
  backed = λ k v e. elim (Bool-cases (str_eq key k)) [
    | inl same ↦
        let found : some w ≡ some v = ground (arith, lookup-insert key k w cp.workflows, e, same) in
        subst IsBacked (unwrap w v found) b
    | inr other ↦ all.backed k v (ground (arith, lookup-insert key k w cp.workflows, e, other))
  ];
}
  where
    unwrap : (x y : ReleaseWorkflow) → some x ≡ some y → x ≡ y
    unwrap x y e = cc

pending_workflow-IsBacked :
    (body : ReleaseRequest) (cp : ControlPlane) → IsBacked (pending_workflow body cp)
unfolding pending_workflow new_release_workflow IsBacked
pending_workflow-IsBacked body cp e = absurd (ground (arith, e))

create_release-AllBacked :
    (body : Option ReleaseRequest) (cp : ControlPlane)
    → AllBacked cp
    → AllBacked (create_release body cp).0
unfolding create_release
create_release-AllBacked none cp all = all
create_release-AllBacked (some body) cp all =
    split (is_some (lookup (workflow_key body.service body.environment body.version) cp.workflows))
  where
    split :
        (b : Bool)
        → let key = workflow_key body.service body.environment body.version in
          let after : ControlPlane × Reply = if b then (cp, status 409) else (
            record cp { workflows = insert key (pending_workflow body cp) cp.workflows },
            status 201,
          ) in
          AllBacked after.0
    split true = all
    split false =
        insert-AllBacked (workflow_key body.service body.environment body.version)
          (pending_workflow body cp) cp (pending_workflow-IsBacked body cp) all

change_release-AllBacked :
    (reply : ReleaseWorkflow → Reply)
    (change : ReleaseWorkflow → ActorRequest → ReleaseWorkflow × Bool)
    (service environment version : Str) (body : Option ActorRequest) (cp : ControlPlane)
    → ((w : ReleaseWorkflow) (b : ActorRequest) → IsBacked w → IsBacked (change w b).0)
    → AllBacked cp
    → AllBacked (change_release reply change service environment version body cp).0
unfolding change_release workflow
change_release-AllBacked reply change service environment version none cp keeps all = all
change_release-AllBacked reply change service environment version (some body) cp keeps all =
    split (lookup (workflow_key service environment version) cp.workflows)
      (all.backed (workflow_key service environment version))
  where
    split :
        (o : Option ReleaseWorkflow)
        → ((w : ReleaseWorkflow) → o ≡ some w → IsBacked w)
        → let after : ControlPlane × Reply = elim o [
          | none ↦ (cp, status 404)
          | some w ↦
              let (w', fine) = change w body in
              (
                record cp {
                  workflows = insert (workflow_key service environment version) w' cp.workflows;
                },
                if fine then reply w' else status 422,
              )
        ] in
          AllBacked after.0
    split none h = all
    split (some w) h =
        insert-AllBacked (workflow_key service environment version) (change w body).0 cp
          (keeps w body (h w refl)) all

set_workflow_gate-workflows :
    (service environment : Str) (required : ℤ) (cp : ControlPlane)
    → (set_workflow_gate service environment required cp).workflows ≡ cp.workflows
unfolding set_workflow_gate
set_workflow_gate-workflows service environment required cp = ground arith

serve_call-AllBacked :
    (c : ReleaseCall) (cp : ControlPlane) → AllBacked cp → AllBacked (serve_call c cp)
unfolding approve_release rollback_release reject_release
serve_call-AllBacked (creation body) cp all = create_release-AllBacked body cp all
serve_call-AllBacked (approving service environment version body) cp all =
    change_release-AllBacked with_approval (λ w b. Workflow.approve_release w b.actor) service
      environment version body cp (λ w b s. act-IsBacked w (approval b.actor) s) all
serve_call-AllBacked (rolling_back service environment version body) cp all =
    change_release-AllBacked with_state (λ w b. Workflow.rollback w b.actor b.reason) service
      environment version body cp (λ w b s. act-IsBacked w (roll_back b.actor b.reason) s) all
serve_call-AllBacked (rejecting service environment version body) cp all =
    change_release-AllBacked with_state (λ w b. Workflow.reject w b.actor b.reason) service
      environment version body cp (λ w b s. act-IsBacked w (reject_by b.actor b.reason) s) all
serve_call-AllBacked (gating service environment required) cp all = record {
  backed = λ k w e.
      all.backed k w
        (ap (lookup k) (sym (set_workflow_gate-workflows service environment required cp)) ∙ e);
}

serve_calls-AllBacked :
    (cs : List ReleaseCall) (cp : ControlPlane) → AllBacked cp → AllBacked (serve_calls cs cp)
serve_calls-AllBacked [] cp all = all
serve_calls-AllBacked (c ∷ cs) cp all =
    serve_calls-AllBacked cs (serve_call c cp) (serve_call-AllBacked c cp all)

new_control_plane-AllBacked : (n : ℤ) → AllBacked (new_control_plane n)
unfolding new_control_plane lookup
new_control_plane-AllBacked n = record { backed = λ k w e. cc }

-- After any calls on releases, whatever their bodies, a release that getRelease reports in the state
-- approved it also reports as approved: its gate has the approvals it needs.
pub get_release-approved :
    (n : ℤ) (cs : List ReleaseCall) (service environment version : Str) (gate_approved : Bool)
    → get_release service environment version (serve_calls cs (new_control_plane n))
      ≡ workflow_state 200 approved gate_approved
    → gate_approved ≡ true
unfolding get_release workflow IsBacked
get_release-approved n cs service environment version gate_approved e =
    let cp = serve_calls cs (new_control_plane n) in
    let all = serve_calls-AllBacked cs (new_control_plane n) (new_control_plane-AllBacked n) in
    split (lookup (workflow_key service environment version) cp.workflows)
      (all.backed (workflow_key service environment version)) e
  where
    split :
        (o : Option ReleaseWorkflow)
        → ((w : ReleaseWorkflow) → o ≡ some w → w.state ≡ approved → is_release_approved w ≡ true)
        → (elim o [
          | none ↦ status 404
          | some w ↦ workflow_state 200 w.state (is_release_approved w)
        ])
          ≡ workflow_state 200 approved gate_approved
        → gate_approved ≡ true
    split none h e = cc
    split (some w) h e = sym (flag e) ∙ h w refl (state e)
      where
        flag :
            workflow_state 200 w.state (is_release_approved w)
              ≡ workflow_state 200 approved gate_approved
            → is_release_approved w ≡ gate_approved
        flag e = cc

        state :
            workflow_state 200 w.state (is_release_approved w)
              ≡ workflow_state 200 approved gate_approved
            → w.state ≡ approved
        state e = cc
