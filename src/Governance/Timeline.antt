-- ===== src/Governance/Timeline.antt =====
-- Record, History and Latest of DeploymentEventLog (pkg/runtime/governance.go).
use fgoths_framework.Prelude.{
  ◌≡◌, inl, inr, refl, ap, ◌∙◌, true, ◌&&◌, List, [], ◌∷◌, ◌++◌, some, arith, if◌then◌else◌,
  Bool-cases,
}
use fgoths_framework.Prelude.Text.{Str, str_eq, str_eq_iff, trim_space}
use fgoths_framework.Prelude.Maps.{lookup2, insert2, lookup2-insert2}
use fgoths_framework.Governance.Events.{
  DeploymentEvent, DeploymentEventLog, or_nil, record_event, find_trimmed, history, last_of, latest,
}

pub last_of-snoc : {A : Type 0} (xs : List A) (x : A) → last_of (xs ++ x ∷ []) ≡ some x
unfolding last_of
last_of-snoc [] x = refl
last_of-snoc (y ∷ []) x = refl
last_of-snoc (y ∷ z ∷ xs) x = last_of-snoc (z ∷ xs) x

-- The event that Record stores.
abbrev pub cleaned : Str → Str → Str → Str → Str → Str → DeploymentEvent
cleaned service environment version action actor reason = record {
  service = trim_space service;
  environment = trim_space environment;
  version = trim_space version;
  action = trim_space action;
  actor = trim_space actor;
  reason = trim_space reason;
}

-- Record without an error appends one event, with its texts trimmed, to the history of its service
-- and environment, and Latest answers that event; the history of any other service and environment,
-- compared without spaces around them, is as before.
record_event-latest :
    (service environment version action actor reason s e : Str) (log : DeploymentEventLog)
    → (record_event service environment version action actor reason log).1 ≡ true
    → (history s e (record_event service environment version action actor reason log).0 ≡ (
        if str_eq (trim_space service) (trim_space s)
          && str_eq (trim_space environment) (trim_space e)
        then some (
            or_nil (history s e log)
            ++ cleaned service environment version action actor reason ∷ [])
        else history s e log))
      × (latest service environment
            (record_event service environment version action actor reason log).0
          ≡ some (cleaned service environment version action actor reason))
unfolding record_event history latest find_trimmed
record_event-latest service environment version action actor reason s e log fine =
    let a = trim_space service in
    let b = trim_space environment in
    let event = cleaned service environment version action actor reason in
    let events = or_nil (lookup2 a b log) ++ event ∷ [] in
    let here : lookup2 a b (insert2 a b events log) ≡ some events =
      ground (arith, lookup2-insert2 a b a b events log, str_eq_iff a a, str_eq_iff b b) in
    let last = last_of-snoc (or_nil (lookup2 a b log)) event in
    let read = lookup2-insert2 a b (trim_space s) (trim_space e) events log in
    (
      elim (Bool-cases (str_eq a (trim_space s) && str_eq b (trim_space e))) [
        | inl same ↦
            let to_s : a ≡ trim_space s = ground (arith, str_eq_iff a (trim_space s)) in
            let to_e : b ≡ trim_space e = ground (arith, str_eq_iff b (trim_space e)) in
            let before : lookup2 a b log ≡ lookup2 (trim_space s) (trim_space e) log =
              ap (λ x. lookup2 x b log) to_s ∙ ap (λ x. lookup2 (trim_space s) x log) to_e in
            ground (arith, read, same, before, to_s, to_e)
        | inr other ↦ ground (arith, read, other)
      ],
      ground arith,
    )
