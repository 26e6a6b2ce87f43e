-- ===== src/Policies/Steps.antt =====
-- What a change through PolicyVersioner does to the registry and to the histories
-- (pkg/runtime/policy_versioning.go).
use fgoths_framework.Prelude.{
  ℕ, ◌+◌, ◌-◌, ◌≡◌, ◌⊎◌, refl, Bool, true, false, inl, inr, [], ◌∷◌, ◌++◌, Option, none, some,
  is_empty, is_some, length, arith, if◌then◌else◌,
}
use fgoths_framework.Prelude.Int.{ℤ, pos_part}
use fgoths_framework.Prelude.Text.{Str, trim_space}
use fgoths_framework.Prelude.Maps.{lookup, insert}
use fgoths_framework.Registry.State.{RoutePolicy, RouteRegistry, RegistryError}
use fgoths_framework.Registry.Routes.{clean_policy, policy_error, register_policy}
use fgoths_framework.Policies.Versions.{
  PolicyVersionRecord, Versions, PolicyVersioner, VersionError, actor_required, stated, rollback_to,
  not_saved, refused, or_nil, policy_key, replace_policy, nth_record, append_record, create,
}

-- The policy, normalized, is the active one.
abbrev pub activated : RoutePolicy → RouteRegistry → RouteRegistry
activated p r = record r { policies = insert (trim_space p.name) (clean_policy p) r.policies }

abbrev pub extended : Str → PolicyVersionRecord → Versions → Versions
extended key x m = insert key (or_nil (lookup key m) ++ x ∷ []) m

-- The record stands at the end of the history of the key, and its policy is active; nothing else has
-- changed.
pub record IsAppended (key : Str) (x : PolicyVersionRecord) (pv pv' : PolicyVersioner)
    : Type 0 where
  pub versions : pv'.versions ≡ extended key x pv.versions
  pub registry : pv'.registry ≡ activated x.policy pv.registry

-- The call returned an error, and not the one of a store that fails to save.
abbrev pub is_refused : Option VersionError → Bool
is_refused none = false
is_refused (some not_saved) = false
is_refused (some e) = true

-- A policy that is replaced is one that is registered.
pub replace_policy-cases :
    (p : RoutePolicy) (r : RouteRegistry)
    → (is_refused (replace_policy p r).1 ≡ true)
      ⊎ (replace_policy p r ≡ (activated p r, none))
        × (is_some (lookup (trim_space p.name) r.policies) ≡ true)
unfolding replace_policy clean_policy
replace_policy-cases p r = ground arith

-- What Create records: the policy as it was given.
abbrev pub created_record : RoutePolicy → (actor reason : Str) → PolicyVersionRecord
created_record policy actor reason = record {
  policy_name = policy.name;
  environment = policy.environment;
  version = 1;
  policy = policy;
  actor = trim_space actor;
  reason = stated (trim_space reason);
}

-- What a call that appends returns: the error of the store, if it has one.
abbrev pub save_error :
    (Versions → Bool) → Str → PolicyVersionRecord → PolicyVersioner → Option VersionError
save_error save key x pv = if save (extended key x pv.versions) then none else some not_saved

-- The record is appended, and the call returns what the store answers to the histories.
abbrev pub Appends :
    (Versions → Bool)
    → Str
    → PolicyVersionRecord
    → PolicyVersioner
    → PolicyVersioner × Option VersionError
    → Type 0
Appends save key x pv after = IsAppended key x pv after.0 × (after.1 ≡ save_error save key x pv)

-- The call is refused and changes nothing, or it appends the record, whose policy was registered.
abbrev pub Replaced :
    (Versions → Bool)
    → Str
    → PolicyVersionRecord
    → PolicyVersioner
    → PolicyVersioner × Option VersionError
    → Type 0
Replaced save key x pv after =
    ((after.0 ≡ pv) × (is_refused after.1 ≡ true))
    ⊎ (is_some (lookup (trim_space x.policy.name) pv.registry.policies) ≡ true)
      × Appends save key x pv after

-- What Update records: the normalized policy.
abbrev pub updated_record :
    RoutePolicy → (actor reason : Str) → PolicyVersioner → PolicyVersionRecord
updated_record policy actor reason pv =
    let p = clean_policy policy in
    record {
      policy_name = p.name;
      environment = p.environment;
      version = length (or_nil (lookup (policy_key p.name p.environment) pv.versions)) + 1;
      policy = p;
      actor = trim_space actor;
      reason = stated (trim_space reason);
    }

abbrev pub updated_key : RoutePolicy → Str
updated_key policy = policy_key (clean_policy policy).name (clean_policy policy).environment

-- What Rollback records: the policy of the target as it was recorded.
abbrev pub rollback_record :
    PolicyVersionRecord
    → (name environment : Str) (to_version : ℕ) (actor reason : Str) → PolicyVersioner
    → PolicyVersionRecord
rollback_record target name environment to_version actor reason pv = record {
  policy_name = name;
  environment = environment;
  version = length (or_nil (lookup (policy_key name environment) pv.versions)) + 1;
  policy = target.policy;
  actor = trim_space actor;
  reason = rollback_to to_version (trim_space reason);
}

-- The target of a rollback.
abbrev pub target_of : (name environment : Str) → ℤ → PolicyVersioner → Option PolicyVersionRecord
target_of name environment to_version pv =
    nth_record (pos_part to_version - 1) (or_nil (lookup (policy_key name environment) pv.versions))

abbrev pub RolledBack :
    (Versions → Bool)
    → (name environment : Str) → ℤ
    → (actor reason : Str) → PolicyVersioner
    → PolicyVersioner × Option VersionError
    → Type 0
RolledBack save name environment to_version actor reason pv after =
    ((after.0 ≡ pv) × (is_refused after.1 ≡ true))
    ⊎ (target : PolicyVersionRecord) × (target_of name environment to_version pv ≡ some target)
      × (is_some (lookup (trim_space target.policy.name) pv.registry.policies) ≡ true)
      × Appends save (policy_key name environment)
          (rollback_record target name environment (pos_part to_version) actor reason pv) pv after

module _ (save : Versions → Bool) where
  pub append_record-Appends :
      (key : Str) (x : PolicyVersionRecord) (pv : PolicyVersioner)
      → Appends save key x pv
          (append_record save key x (record pv { registry = activated x.policy pv.registry }))
  unfolding append_record
  append_record-Appends key x pv = split (save (extended key x pv.versions))
    where
      split :
          (b : Bool)
          → let r = activated x.policy pv.registry in
            let m = extended key x pv.versions in
            let pv' : PolicyVersioner × Option VersionError =
              if b
              then (record { registry = r; versions = m; saved = some m }, none)
              else (record { registry = r; versions = m; saved = pv.saved }, some not_saved) in
            IsAppended key x pv pv'.0 × (pv'.1 ≡ (if b then none else some not_saved))
      split true = (record { versions = refl; registry = refl }, refl)
      split false = (record { versions = refl; registry = refl }, refl)

  pub create-Outcome :
      (policy : RoutePolicy) (actor reason : Str) (pv : PolicyVersioner)
      → ((create save policy actor reason pv).0 ≡ pv)
          × (is_refused (create save policy actor reason pv).1 ≡ true)
        ⊎ (is_some (lookup (trim_space policy.name) pv.registry.policies) ≡ false)
          × Appends save
              (policy_key policy.name policy.environment)
              (created_record policy actor reason)
              pv
              (create save policy actor reason pv)
  unfolding create register_policy policy_error
  create-Outcome policy actor reason pv =
      split (is_empty (trim_space actor)) (policy_error pv.registry policy) (λ e. ground arith)
    where
      split :
          (blank : Bool) (error : Option RegistryError)
          → (error ≡ none → is_some (lookup (trim_space policy.name) pv.registry.policies) ≡ false)
          → let registered : RouteRegistry × Option RegistryError = elim error [
            | some e ↦ (pv.registry, some e)
            | none ↦ (activated policy pv.registry, none)
          ] in
            let key = policy_key policy.name policy.environment in
            let x = created_record policy actor reason in
            let after : PolicyVersioner × Option VersionError =
              if blank then (pv, some actor_required) else elim registered.1 [
                | some e ↦ (pv, some (refused e))
                | none ↦ append_record save key x (record pv { registry = registered.0 })
              ] in
            ((after.0 ≡ pv) × (is_refused after.1 ≡ true))
            ⊎ (is_some (lookup (trim_space policy.name) pv.registry.policies) ≡ false)
              × Appends save key x pv after
      split true error free = inl (refl, refl)
      split false (some e) free = inl (refl, refl)
      split false none free = inr (
        free refl,
        append_record-Appends (policy_key policy.name policy.environment)
            (created_record policy actor reason) pv,
      )
