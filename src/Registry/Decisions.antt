-- ===== src/Registry/Decisions.antt =====
-- The answers of Evaluate and Decide of pkg/runtime/rollout.go.
use fgoths_framework.Prelude.{◌≡◌, Bool, true, false, ◌&&◌, arith, if◌then◌else◌}
use fgoths_framework.Prelude.Int.{pos, ◌≤ℤ◌}
use fgoths_framework.Prelude.Float.{float, float_lt}
use fgoths_framework.Registry.State.{RolloutConfig}
use fgoths_framework.Registry.Rollouts.{
  RolloutMetrics, RolloutDecision, blocked, rollback_not_allowed, refuse, max_of, with_defaults,
  is_rollback_strategy, decide_valid,
}

-- The metrics exceed the threshold that a valid configuration stands for.
abbrev pub exceeds : RolloutConfig → RolloutMetrics → Bool
exceeds c m =
    let threshold = (with_defaults c).error_threshold in
    float_lt (float 0 1) threshold && float_lt threshold m.error_rate

-- A decision that stays in the limits of the rollout and lets traffic in only if the rollout may.
pub record IsSafe (c : RolloutConfig) (m : RolloutMetrics) (d : RolloutDecision) : Type 0 where
  pub target : d.target ≡ c.target
  pub low : pos 0 ≤ℤ d.weight
  pub high : d.weight ≤ℤ c.canary_weight
  pub limit : d.weight ≤ℤ max_of c
  pub refused : d.allow ≡ false → d.weight ≡ pos 0
  pub allowed :
      d.allow ≡ true
      → (is_rollback_strategy c.strategy ≡ false)
        × (pos 1 ≤ℤ c.canary_weight)
        × (exceeds c m ≡ false)

max_of-with_defaults : (c : RolloutConfig) → max_of (with_defaults c) ≡ max_of c
unfolding with_defaults
max_of-with_defaults c = ground arith

-- What Evaluate answers on a valid configuration.
answer : RolloutConfig → RolloutMetrics → RolloutDecision
answer c m =
    if is_rollback_strategy c.strategy
    then refuse c rollback_not_allowed
    else if exceeds c m
    then refuse c (blocked m.error_rate (with_defaults c).error_threshold)
    else decide_valid (with_defaults (with_defaults c)) m.requests
