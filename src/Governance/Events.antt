-- ===== src/Governance/Events.antt =====
-- DeploymentEventLog of pkg/runtime/governance.go. The times of events are left out.
use fgoths_framework.Prelude.{
  Bool, true, false, ◌||◌, List, [], ◌∷◌, ◌++◌, Option, none, some, is_empty, if◌then◌else◌,
}
use fgoths_framework.Prelude.Text.{Str, trim_space}
use fgoths_framework.Prelude.Maps.{Map, lookup2, insert2}

pub record DeploymentEvent : Type 0 where
  pub service : Str
  pub environment : Str
  pub version : Str
  pub action : Str
  pub actor : Str
  pub reason : Str

abbrev pub DeploymentEventLog : Type 0
DeploymentEventLog = Map (Map (List DeploymentEvent))

-- What Go reads of a missing key.
unfoldable pub or_nil : {A : Type 0} → Option (List A) → List A
or_nil none = []
or_nil (some xs) = xs

-- The Boolean tells that there was no error.
unfoldable pub record_event :
    Str → Str → Str → Str → Str → Str → DeploymentEventLog → DeploymentEventLog × Bool
unfolding or_nil
record_event service environment version action actor reason log =
    let s = trim_space service in
    let env = trim_space environment in
    let event : DeploymentEvent = record {
      service = s;
      environment = env;
      version = trim_space version;
      action = trim_space action;
      actor = trim_space actor;
      reason = trim_space reason;
    } in
    if is_empty s || (is_empty env || is_empty (trim_space action))
    then (log, false)
    else if is_empty (trim_space actor)
    then (log, false)
    else (insert2 s env (or_nil (lookup2 s env log) ++ event ∷ []) log, true)

-- A lookup with trimmed keys, neither of which may be empty.
unfoldable pub find_trimmed : {A : Type 0} → Str → Str → Map (Map A) → Option A
find_trimmed service environment m =
    if is_empty (trim_space service) || is_empty (trim_space environment)
    then none
    else lookup2 (trim_space service) (trim_space environment) m

unfoldable pub history : Str → Str → DeploymentEventLog → Option (List DeploymentEvent)
unfolding find_trimmed
history = find_trimmed

unfoldable pub last_of : {A : Type 0} → List A → Option A
last_of [] = none
last_of (e ∷ []) = some e
last_of (e ∷ f ∷ es) = last_of (f ∷ es)

unfoldable pub latest : Str → Str → DeploymentEventLog → Option DeploymentEvent
unfolding find_trimmed last_of
latest service environment log = elim (find_trimmed service environment log) [
  | none ↦ none
  | some events ↦ last_of events
]
