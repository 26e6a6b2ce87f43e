-- ===== src/Registry/Rollouts.antt =====
-- pkg/runtime/rollout.go.
use fgoths_framework.Prelude.{
  ◌≡◌, ◌⊎◌, inl, inr, refl, Bool, true, false, not, ◌&&◌, Option, none, some, is_some, is_empty,
  if◌then◌else◌,
}
use fgoths_framework.Prelude.Int.{ℤ, pos, ltb_ℤ, leb_ℤ, eq_ℤ}
use fgoths_framework.Prelude.Float.{Float, float, float_lt, float_div}
use fgoths_framework.Prelude.Text.{Str, trim_space}
use fgoths_framework.Prelude.Maps.{Map, lookup, insert}
use fgoths_framework.Registry.State.{
  RolloutConfig, RolloutStrategy, unset, canary, rollback, RouteRegistry, RegistryError,
  name_required, route_required, target_required, rollback_rejected, disabled, negative_weight,
  weight_above_max, zero_weight, negative_threshold, already_exists,
}

pub record RolloutMetrics : Type 0 where
  pub requests : ℤ
  pub error_rate : Float
  pub failed : ℤ
  pub succeeded : ℤ

pub data RolloutReason : Type 0 where
  rollback_not_allowed inactive approved : RolloutReason
  blocked : (error_rate threshold : Float) → RolloutReason

pub record RolloutDecision : Type 0 where
  pub allow : Bool
  pub weight : ℤ
  pub target : Str
  pub reason : RolloutReason

pub data Result (A : Type 0) : Type 0 where
  ok : A → Result A
  err : RegistryError → Result A

pub Result-cases :
    {A : Type 0} (v : Result A) → ((e : RegistryError) × (v ≡ err e)) ⊎ ((a : A) × (v ≡ ok a))
Result-cases (err e) = inl (e, refl)
Result-cases (ok a) = inr (a, refl)

abbrev pub default_strategy : RolloutStrategy → RolloutStrategy
default_strategy unset = canary
default_strategy s = s

abbrev pub max_of : RolloutConfig → ℤ
max_of c = if leb_ℤ c.max_weight (pos 0) then pos 100 else c.max_weight

unfoldable pub rollout_error : RolloutConfig → Option RegistryError
rollout_error c =
    if is_empty (trim_space c.name)
    then some name_required
    else if is_empty (trim_space c.route)
    then some route_required
    else if is_empty (trim_space c.target)
    then some target_required
    else if c.is_rollback
    then some rollback_rejected
    else if not c.enabled
    then some disabled
    else if ltb_ℤ c.canary_weight (pos 0)
    then some negative_weight
    else if ltb_ℤ (max_of c) c.canary_weight
    then some weight_above_max
    else if c.is_progressive && eq_ℤ c.canary_weight (pos 0)
    then some zero_weight
    else if float_lt c.error_threshold (float 0 1)
    then some negative_threshold
    else none

-- The defaults that a successful Validate leaves in the configuration.
unfoldable pub with_defaults : RolloutConfig → RolloutConfig
with_defaults c = record c {
  strategy = default_strategy c.strategy;
  max_weight = max_of c;
  step = if leb_ℤ c.step (pos 0) then pos 10 else c.step;
  error_threshold =
      if float_lt (float 1 1) c.error_threshold
      then float_div c.error_threshold 100
      else c.error_threshold;
}

unfoldable pub validate : RolloutConfig → Result RolloutConfig
unfolding rollout_error with_defaults
validate c = elim (rollout_error c) [ some e ↦ err e | none ↦ ok (with_defaults c) ]

infixl 5 ◌>>=◌
abbrev ◌>>=◌ : {A B : Type 0} → Result A → (A → Result B) → Result B
ok a >>= f = f a
err e >>= f = err e

abbrev pub is_rollback_strategy : RolloutStrategy → Bool
is_rollback_strategy rollback = true
is_rollback_strategy _ = false

abbrev pub refuse : RolloutConfig → RolloutReason → RolloutDecision
refuse c reason = record { allow = false; weight = pos 0; target = c.target; reason = reason }

-- The share of a validated rollout at `current` requests.
unfoldable pub share : RolloutConfig → ℤ → ℤ
share c current =
    let seen = if ltb_ℤ current (pos 0) then pos 0 else current in
    if c.is_progressive && ltb_ℤ seen c.canary_weight then seen else c.canary_weight

unfoldable pub decide_valid : RolloutConfig → ℤ → RolloutDecision
unfolding share
decide_valid c current =
    if is_rollback_strategy c.strategy
    then refuse c rollback_not_allowed
    else if leb_ℤ c.canary_weight (pos 0)
    then refuse c inactive
    else record { allow = true; weight = share c current; target = c.target; reason = approved }

unfoldable pub decide : RolloutConfig → ℤ → Result RolloutDecision
unfolding validate decide_valid
decide c current = do c' ← validate c; ok (decide_valid c' current)

-- Evaluate validates, and Decide validates the result once more.
unfoldable pub evaluate_valid : RolloutConfig → RolloutMetrics → Result RolloutDecision
unfolding decide
evaluate_valid c m =
    if is_rollback_strategy c.strategy
    then ok (refuse c rollback_not_allowed)
    else if float_lt (float 0 1) c.error_threshold && float_lt c.error_threshold m.error_rate
    then ok (refuse c (blocked m.error_rate c.error_threshold))
    else decide c m.requests

unfoldable pub evaluate : RolloutConfig → RolloutMetrics → Result RolloutDecision
unfolding evaluate_valid
evaluate c m = do c' ← validate c; evaluate_valid c' m

unfoldable pub store_rollout :
    RolloutConfig → Map RolloutConfig → Map RolloutConfig × Option RegistryError
store_rollout c rollouts =
    if is_some (lookup c.name rollouts)
    then (rollouts, some already_exists)
    else (insert c.name c rollouts, none)

-- RolloutRegistry.RegisterRollout, on the map that this registry holds.
unfoldable pub register_trimmed :
    RolloutConfig → Map RolloutConfig → Map RolloutConfig × Option RegistryError
unfolding store_rollout validate
register_trimmed c rollouts =
    elim (validate (record c {
      name = trim_space c.name;
      route = trim_space c.route;
      target = trim_space c.target;
    })) [ err e ↦ (rollouts, some e) | ok c' ↦ store_rollout c' rollouts ]

-- RouteRegistry.RegisterRollout: nothing is trimmed.
unfoldable pub register_rollout :
    RolloutConfig → RouteRegistry → RouteRegistry × Option RegistryError
unfolding store_rollout validate
register_rollout c r = elim (validate c) [
  | err e ↦ (r, some e)
  | ok c' ↦ let (m, e) = store_rollout c' r.rollouts in (record r { rollouts = m }, e)
]

-- GetRollout of both registries.
unfoldable pub get_rollout : Str → Map RolloutConfig → Option RolloutConfig
get_rollout name rollouts = lookup (trim_space name) rollouts
