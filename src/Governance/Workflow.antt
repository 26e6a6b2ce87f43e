-- ===== src/Governance/Workflow.antt =====
-- ReleaseWorkflow of pkg/runtime/governance.go. Its times are left out.
use fgoths_framework.Prelude.{Bool, true, false, [], Option, none, some, is_empty, if◌then◌else◌}
use fgoths_framework.Prelude.Text.{Str, codes, trim_space}
use fgoths_framework.Governance.Gate.{ApprovalGate, approve, is_approved}
use fgoths_framework.Governance.Events.{DeploymentEventLog, record_event}

-- The values that the code gives to the field State, a string in Go.
pub data State : Type 0 where
  pending approved rejected rolled_back : State

pub record ReleaseWorkflow : Type 0 where
  pub service : Str
  pub environment : Str
  pub version : Str
  pub gate : Option ApprovalGate
  pub events : Option DeploymentEventLog
  pub state : State

unfoldable pub new_release_workflow : Str → Str → Str → ReleaseWorkflow
new_release_workflow service environment version = record {
  service = if is_empty service then codes "unknown-service" else service;
  environment = if is_empty environment then codes "prod" else environment;
  version = version;
  gate = none;
  events = some [];
  state = pending;
}

abbrev pub is_terminal : State → Bool
is_terminal pending = false
is_terminal approved = false
is_terminal rejected = true
is_terminal rolled_back = true

-- The Boolean tells that there was no error.
unfoldable pub log_action : ReleaseWorkflow → Str → Str → Str → ReleaseWorkflow × Bool
log_action w action actor reason = elim w.events [
  | none ↦ (w, true)
  | some log ↦
      let (log', fine) = record_event w.service w.environment w.version action actor reason log in
      (record w { events = some log' }, fine)
]

unfoldable pub approve_gate : ReleaseWorkflow → ApprovalGate → Str → ReleaseWorkflow × Bool
unfolding log_action
approve_gate w g actor =
    let (g', fine) = approve g actor in
    let w' : ReleaseWorkflow = record w {
      gate = some g';
      state = if is_approved g' then approved else w.state;
    } in
    if fine then log_action w' (codes "approval") actor (codes "approval recorded") else (w, false)

unfoldable pub approve_release : ReleaseWorkflow → Str → ReleaseWorkflow × Bool
unfolding approve_gate
approve_release w actor =
    if is_terminal w.state
    then (w, false)
    else elim w.gate [ none ↦ (w, false) | some g ↦ approve_gate w g actor ]

unfoldable pub is_release_approved : ReleaseWorkflow → Bool
is_release_approved w = elim w.gate [ none ↦ false | some g ↦ is_approved g ]

unfoldable pub finish : State → Str → ReleaseWorkflow → Str → Str → ReleaseWorkflow × Bool
unfolding log_action
finish to action w actor reason =
    if is_terminal w.state
    then (w, false)
    else if is_empty (trim_space actor)
    then (w, false)
    else log_action (record w { state = to }) action actor reason

unfoldable pub rollback : ReleaseWorkflow → Str → Str → ReleaseWorkflow × Bool
unfolding finish
rollback = finish rolled_back (codes "rollback")

unfoldable pub reject : ReleaseWorkflow → Str → Str → ReleaseWorkflow × Bool
unfolding finish
reject = finish rejected (codes "reject")
