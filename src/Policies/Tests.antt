-- ===== src/Policies/Tests.antt =====
-- Runs of pkg/runtime/policy_versioning.go, and the theorems at concrete inputs.
use mathlib.Core.List.{Memᴰ}
use fgoths_framework.Prelude.{
  ◌≡◌, ◌⊎◌, refl, Bool, true, false, arith, List, [], ◌∷◌, some, none, reverse, subst, sym, ◌∙◌,
}
use fgoths_framework.Prelude.Int.{pos}
use fgoths_framework.Prelude.Text.{str_eq_iff, codes, trim_space, text_functions}
use fgoths_framework.Prelude.Maps.{map_functions}
use fgoths_framework.Registry.State.{RoutePolicy, new_slo_policy, new_route_registry}
use fgoths_framework.Registry.Routes.{clean_policy, policy_error, register_policy, get_policy}
use fgoths_framework.Policies.Versions.{
  PolicyVersionRecord, Versions, policy_key, replace_policy, restore_latest, restore_all,
  new_policy_versioner, history, append_record, create, update_with, update, rollback_with,
  rollback, stated, rollback_to, last_of, not_saved,
}
use fgoths_framework.Policies.Steps.{is_refused}
use fgoths_framework.Policies.Numbering.{
  PolicyChange, creation, revision, reversal, apply_change, apply_changes, fresh_versioner,
  records_at, Numbered, apply_changes-Numbered,
}
use fgoths_framework.Policies.Appending.{Effect, apply_change-appends}
use fgoths_framework.Policies.Restart.{AgreesWith, new_policy_versioner-restores}

policies : Unit {0}
unfolding text_functions map_functions new_slo_policy new_route_registry clean_policy policy_error
    register_policy get_policy policy_key replace_policy restore_latest restore_all
    new_policy_versioner history append_record create update_with update rollback_with rollback
policies = tt

abbrev saves : Versions → Bool
saves m = true

abbrev fails : Versions → Bool
fails m = false

abbrev draft : RoutePolicy
draft = record {
  name = codes "checkout";
  environment = [];
  service = codes "shop";
  allowed_tenants = [];
  allowed_regions = [];
  require_signed_artifacts = false;
  require_audit = false;
  slo = none;
}

abbrev audited : RoutePolicy
audited = record draft { environment = codes "prod"; require_audit = true }

abbrev changes : List PolicyChange
changes =
    creation audited (codes "ann") []
    ∷ revision (record audited { require_audit = false }) (codes "bob") (codes "slow")
    ∷ reversal (codes "checkout") (codes "prod") (pos 1) (codes "eve") (codes "back")
    ∷ []

three_versions :
    reverse (records_at (codes "checkout/prod") (apply_changes saves changes fresh_versioner))
    ≡ record {
      policy_name = codes "checkout";
      environment = codes "prod";
      version = 3;
      policy = audited;
      actor = codes "eve";
      reason = rollback_to 1 (codes "back");
    }
      ∷ reverse (
          records_at (codes "checkout/prod") (
            apply_changes saves
              (creation audited (codes "ann") []
                ∷ revision (record audited { require_audit = false }) (codes "bob") (codes "slow")
                ∷ [])
              fresh_versioner))
unfolding policies
three_versions = refl

apply_changes-Numbered_example :
    Numbered 1 (records_at (codes "checkout/prod") (apply_changes saves changes fresh_versioner))
unfolding policies
apply_changes-Numbered_example =
    apply_changes-Numbered saves changes (codes "checkout/prod") (refl, (tt, (tt, tt)))

-- A change whose record the store does not save.
apply_change-appends_example :
    let after = apply_change fails (creation draft (codes "ann") []) fresh_versioner in
    ((after.0 ≡ fresh_versioner) × (is_refused after.1 ≡ true))
    ⊎ Effect fails (creation draft (codes "ann") []) fresh_versioner after
apply_change-appends_example =
    apply_change-appends fails (creation draft (codes "ann") []) fresh_versioner

unsaved_appended :
    (apply_change fails (creation draft (codes "ann") []) fresh_versioner).1 ≡ some not_saved
unfolding policies
unsaved_appended = refl

-- Without an environment Create files the policy under "checkout/", and an update for "prod" starts a
-- second history at version 1.
abbrev two_histories : Versions
two_histories =
    (apply_changes saves (creation draft (codes "ann") [] ∷ revision audited (codes "bob") [] ∷ [])
      fresh_versioner).versions

abbrev first_record : PolicyVersionRecord
first_record = record {
  policy_name = codes "checkout";
  environment = [];
  version = 1;
  policy = draft;
  actor = codes "ann";
  reason = stated [];
}

abbrev second_record : PolicyVersionRecord
second_record = record {
  policy_name = codes "checkout";
  environment = codes "prod";
  version = 1;
  policy = clean_policy audited;
  actor = codes "bob";
  reason = stated [];
}

two_versions_one :
    two_histories
    ≡ (codes "checkout/", first_record ∷ []) ∷ (codes "checkout/prod", second_record ∷ []) ∷ []
unfolding policies
two_versions_one = refl

same_record : (x y : PolicyVersionRecord) → some x ≡ some y → x ≡ y
same_record x y e = cc

-- A history that ends in x, where x and the record z agree.
ends_in :
    (z x : PolicyVersionRecord) (records : List PolicyVersionRecord)
    → last_of records ≡ some x
    → (trim_space x.policy_name ≡ trim_space x.policy.name)
      × (trim_space x.policy.name ≡ trim_space z.policy.name → x.policy ≡ z.policy)
    → AgreesWith z records
ends_in z x records e h y latest =
    subst
      (λ w.
        (trim_space w.policy_name ≡ trim_space w.policy.name)
        × (trim_space w.policy.name ≡ trim_space z.policy.name → w.policy ≡ z.policy))
      (same_record x y (sym e ∙ latest)) h

-- The policy without an environment, updated to the one that the history for prod ends in.
abbrev third_record : PolicyVersionRecord
third_record = record first_record { version = 2; policy = second_record.policy }

abbrev cart_record : PolicyVersionRecord
cart_record = record first_record {
  policy_name = codes "cart";
  policy = record draft { name = codes "cart" };
}

abbrev stored_histories : Versions
stored_histories =
    (codes "cart/", cart_record ∷ [])
    ∷ (codes "checkout/", first_record ∷ third_record ∷ [])
    ∷ (codes "checkout/prod", second_record ∷ [])
    ∷ []

other_name : trim_space (codes "cart") ≡ trim_space (codes "checkout") → ⊥
unfolding policies
other_name e = ground (arith, (str_eq_iff (codes "cart") (codes "checkout")).1 e)

new_policy_versioner-restores_example :
    get_policy
      (codes "checkout")
      (new_policy_versioner new_route_registry (some stored_histories)).registry
    ≡ some (clean_policy (clean_policy audited))
unfolding policies
new_policy_versioner-restores_example =
    new_policy_versioner-restores (codes "checkout/prod") (second_record ∷ []) second_record
      stored_histories (Memᴰ.tail (Memᴰ.tail (Memᴰ.head refl))) refl
      (record { same_name = refl; named = refl; served = refl })
      (
        ends_in second_record cart_record (cart_record ∷ []) refl
            (refl, λ e. absurd (other_name e)),
        (
          ends_in second_record third_record (first_record ∷ third_record ∷ []) refl
              (refl, λ e. refl),
          (ends_in second_record second_record (second_record ∷ []) refl (refl, λ e. refl), tt),
        ),
      )
