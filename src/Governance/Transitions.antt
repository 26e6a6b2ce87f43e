-- ===== src/Governance/Transitions.antt =====
-- Runs of the release workflow: Approve, Rollback and Reject of pkg/runtime/governance.go.
use fgoths_framework.Prelude.{
  ◌≡◌, ◌≢◌, inl, inr, refl, sym, ap, ◌∙◌, subst, true, false, List, [], ◌∷◌, Option, none, some,
  arith, is_empty, length-append, if◌then◌else◌, Bool-cases, Option-cases,
}
use fgoths_framework.Prelude.Text.{Str, codes, trim_space}
use fgoths_framework.Governance.Gate.{ApprovalGate, approve, is_approved}
use fgoths_framework.Governance.Events.{DeploymentEventLog, record_event}
use fgoths_framework.Governance.Workflow.{
  State, approved, rejected, rolled_back, ReleaseWorkflow, new_release_workflow, is_terminal,
  log_action, approve_gate, approve_release, is_release_approved, finish, rollback, reject,
}

-- The calls that change a workflow.
pub data Action : Type 0 where
  approval : Str → Action
  roll_back reject_by : (actor reason : Str) → Action

abbrev pub act : ReleaseWorkflow → Action → ReleaseWorkflow
act w (approval actor) = (approve_release w actor).0
act w (roll_back actor reason) = (rollback w actor reason).0
act w (reject_by actor reason) = (reject w actor reason).0

abbrev pub run : ReleaseWorkflow → List Action → ReleaseWorkflow
run w [] = w
run w (a ∷ actions) = run (act w a) actions

act_terminal : (w : ReleaseWorkflow) (a : Action) → is_terminal w.state ≡ true → act w a ≡ w
unfolding approve_release rollback reject finish
act_terminal w (approval actor) e = rw (e, act, approve_release) refl
act_terminal w (roll_back actor reason) e = rw (e, act, rollback, finish) refl
act_terminal w (reject_by actor reason) e = rw (e, act, reject, finish) refl

-- A rejected or rolled back workflow stays as it is whatever is called: no later call changes its
-- state, its gate or its event log.
run_terminal :
    (w : ReleaseWorkflow) (actions : List Action) → is_terminal w.state ≡ true → run w actions ≡ w
run_terminal w [] e = refl
run_terminal w (a ∷ actions) e =
    let stays : act w a ≡ w = act_terminal w a e in
    ap (λ v. run v actions) stays ∙ run_terminal w actions e

-- A state that says approved is backed by the gate.
unfoldable pub IsBacked : ReleaseWorkflow → Type 0
IsBacked w = w.state ≡ approved → is_release_approved w ≡ true

log_action-rest :
    (w : ReleaseWorkflow) (action actor reason : Str)
    → ((log_action w action actor reason).0.state ≡ w.state)
      × ((log_action w action actor reason).0.gate ≡ w.gate)
unfolding log_action
log_action-rest w action actor reason = elim (Option-cases w.events) [
  | inl nothing ↦ (ground arith, ground arith)
  | inr (log, e) ↦ (ground arith, ground arith)
]

same-IsBacked :
    (w v : ReleaseWorkflow) → v.state ≡ w.state → v.gate ≡ w.gate → IsBacked w → IsBacked v
unfolding IsBacked is_release_approved
same-IsBacked w v state gate s e =
    let before = s (sym state ∙ e) in
    subst (λ g. (elim g [ none ↦ false | some x ↦ is_approved x ]) ≡ true) (sym gate) before

approve-is_approved :
    (g : ApprovalGate) (actor : Str) → is_approved g ≡ true → is_approved (approve g actor).0 ≡ true
unfolding is_approved approve
approve-is_approved g actor h = ground (arith, length-append g.approvals (actor ∷ []))

approve_gate-IsBacked :
    (w : ReleaseWorkflow) (g : ApprovalGate) (actor : Str)
    → w.gate ≡ some g
    → IsBacked w
    → IsBacked (approve_gate w g actor).0
unfolding approve_gate IsBacked is_release_approved
approve_gate-IsBacked w g actor here s =
    let w' : ReleaseWorkflow = record w {
      gate = some (approve g actor).0;
      state = if is_approved (approve g actor).0 then approved else w.state;
    } in
    let (state, gate) = log_action-rest w' (codes "approval") actor (codes "approval recorded") in
    elim (Bool-cases (approve g actor).1) [
      | inr failed ↦ rw (failed, approve_gate) s
      | inl went ↦
          rw (went, approve_gate)
            (same-IsBacked w' (log_action w' (codes "approval") actor (codes "approval recorded")).0
              state gate
              (λ e. elim (Bool-cases (is_approved (approve g actor).0)) [
                | inl enough ↦ enough
                | inr few ↦
                    let kept : w.state ≡ approved = ground arith in
                    let before : is_approved g ≡ true =
                      subst (λ o. (elim o [ none ↦ false | some x ↦ is_approved x ]) ≡ true) here
                        (s kept) in
                    approve-is_approved g actor before
              ]))
    ]

approve_release-IsBacked :
    (w : ReleaseWorkflow) (actor : Str) → IsBacked w → IsBacked (approve_release w actor).0
unfolding approve_release
approve_release-IsBacked w actor s = elim (Bool-cases (is_terminal w.state)) [
  | inl over ↦ rw (over, approve_release) s
  | inr going ↦ elim (Option-cases w.gate) [
    | inl gateless ↦ rw (going, approve_release, gateless) s
    | inr (g, here) ↦ rw (going, approve_release, here) (approve_gate-IsBacked w g actor here s)
  ]
]

finish-IsBacked :
    (to : State) (action : Str) (w : ReleaseWorkflow) (actor reason : Str)
    → is_terminal to ≡ true
    → IsBacked w
    → IsBacked (finish to action w actor reason).0
unfolding finish IsBacked
finish-IsBacked to action w actor reason final s = elim (Bool-cases (is_terminal w.state)) [
  | inl over ↦ rw (over, finish) s
  | inr going ↦ elim (Bool-cases (is_empty (trim_space actor))) [
    | inl nobody ↦ rw (going, finish, nobody) s
    | inr somebody ↦
        let w' : ReleaseWorkflow = record w { state = to } in
        let (state, gate) = log_action-rest w' action actor reason in
        rw (going, finish, somebody)
          (same-IsBacked w' (log_action w' action actor reason).0 state gate (λ e.
            let clash : is_terminal approved ≡ true = subst (λ x. is_terminal x ≡ true) e final in
            absurd (ground arith)))
  ]
]

pub act-IsBacked : (w : ReleaseWorkflow) (a : Action) → IsBacked w → IsBacked (act w a)
unfolding rollback reject
act-IsBacked w (approval actor) s = approve_release-IsBacked w actor s
act-IsBacked w (roll_back actor reason) s =
    finish-IsBacked rolled_back (codes "rollback") w actor reason refl s
act-IsBacked w (reject_by actor reason) s =
    finish-IsBacked rejected (codes "reject") w actor reason refl s

run-IsBacked : (w : ReleaseWorkflow) (actions : List Action) → IsBacked w → IsBacked (run w actions)
run-IsBacked w [] s = s
run-IsBacked w (a ∷ actions) s = run-IsBacked (act w a) actions (act-IsBacked w a s)

-- A new workflow, with any gate attached, is after any calls in the state approved only if its gate
-- has the approvals that it needs.
pub run_approved :
    (service environment version : Str) (gate : Option ApprovalGate) (actions : List Action)
    → (run
        (record (new_release_workflow service environment version) { gate = gate })
        actions).state
      ≡ approved
    → is_release_approved
        (run (record (new_release_workflow service environment version) { gate = gate }) actions)
      ≡ true
unfolding new_release_workflow IsBacked
run_approved service environment version gate actions =
    run-IsBacked (record (new_release_workflow service environment version) { gate = gate }) actions
      (λ e. absurd (ground arith))

-- Approve by an actor of spaces only, on a workflow that is not over, whose gate this approval
-- completes: the call returns an error, after it has set the state to approved.
approve_release_blank :
    (w : ReleaseWorkflow) (g : ApprovalGate) (log : DeploymentEventLog) (actor : Str)
    → is_terminal w.state ≡ false
    → w.gate ≡ some g
    → w.events ≡ some log
    → actor ≢ []
    → trim_space actor ≡ []
    → is_approved (approve g actor).0 ≡ true
    → ((approve_release w actor).1 ≡ false) × ((approve_release w actor).0.state ≡ approved)
unfolding approve_release approve_gate log_action record_event approve
approve_release_blank w g log actor going here logged filled blank enough =
    (ground arith, ground arith)
