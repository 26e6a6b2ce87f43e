-- ===== src/Policies/Versions.antt =====
-- PolicyVersioner (pkg/runtime/policy_versioning.go). The store is its answer to Save, a parameter,
-- and what it saved last; the answer is true if there is no store. The diff, which is a text for
-- operators, and the creation time of a record are left out.
use fgoths_framework.Prelude.{
  ℕ, zero, suc, ◌+◌, ◌-◌, Bool, not, ◌||◌, List, [], ◌∷◌, ◌++◌, Option, none, some, is_empty,
  is_some, length, if◌then◌else◌,
}
use fgoths_framework.Prelude.Int.{ℤ, pos, pos_part, ltb_ℤ}
use fgoths_framework.Prelude.Text.{Str, str_eq, trim_space}
use fgoths_framework.Prelude.Maps.{Map, lookup, insert}
use fgoths_framework.Registry.State.{RoutePolicy, RouteRegistry, RegistryError}
use fgoths_framework.Registry.Routes.{clean_policy, register_policy, get_policy}

-- The reason of a record: the operator's, or "rollback to v…: …".
pub data Reason : Type 0 where
  stated : Str → Reason
  rollback_to : (version : ℕ) → Str → Reason

pub record PolicyVersionRecord : Type 0 where
  pub policy_name : Str
  pub environment : Str
  pub version : ℕ
  pub policy : RoutePolicy
  pub actor : Str
  pub reason : Reason

abbrev pub Versions : Type 0
Versions = Map (List PolicyVersionRecord)

pub record PolicyVersioner : Type 0 where
  pub registry : RouteRegistry
  pub versions : Versions
  pub saved : Option Versions

pub data VersionError : Type 0 where
  actor_required not_found environment_mismatch no_history out_of_range not_saved : VersionError
  name_required service_required : VersionError
  refused : RegistryError → VersionError

abbrev pub or_nil : Option (List PolicyVersionRecord) → List PolicyVersionRecord
or_nil none = []
or_nil (some records) = records

unfoldable pub policy_key : (name environment : Str) → Str
policy_key name environment = trim_space name ++ (b'/' ∷ trim_space environment)

unfoldable pub replace_policy : RoutePolicy → RouteRegistry → RouteRegistry × Option VersionError
unfolding clean_policy
replace_policy policy r =
    let p = clean_policy policy in
    if is_empty p.name
    then (r, some name_required)
    else if is_empty p.service
    then (r, some service_required)
    else if not (is_some (lookup p.name r.policies))
    then (r, some not_found)
    else (record r { policies = insert p.name p r.policies }, none)

abbrev pub last_of : List PolicyVersionRecord → Option PolicyVersionRecord
last_of [] = none
last_of (x ∷ []) = some x
last_of (x ∷ y ∷ xs) = last_of (y ∷ xs)

-- What NewPolicyVersioner does with one history. An error of RegisterPolicy is dropped.
unfoldable pub restore_latest : RouteRegistry → List PolicyVersionRecord → RouteRegistry
restore_latest r records = elim (last_of records) [
  | none ↦ r
  | some latest ↦
      if is_some (get_policy latest.policy_name r) then r else (register_policy latest.policy r).0
]

-- The histories in the order in which Go visits them.
unfoldable pub restore_all : RouteRegistry → Versions → RouteRegistry
unfolding restore_latest
restore_all r [] = r
restore_all r ((k, records) ∷ m) = restore_all (restore_latest r records) m

-- `loaded` is what the store has, `none` without a store or if it fails.
unfoldable pub new_policy_versioner : RouteRegistry → Option Versions → PolicyVersioner
unfolding restore_all
new_policy_versioner r none = record { registry = r; versions = []; saved = none }
new_policy_versioner r (some m) = record {
  registry = restore_all r m;
  versions = m;
  saved = some m;
}

abbrev pub nth_record : ℕ → List PolicyVersionRecord → Option PolicyVersionRecord
nth_record n [] = none
nth_record zero (x ∷ xs) = some x
nth_record (suc n) (x ∷ xs) = nth_record n xs

unfoldable pub history :
    (name environment : Str) → PolicyVersioner → Option (List PolicyVersionRecord)
unfolding policy_key
history name environment pv =
    let records = or_nil (lookup (policy_key name environment) pv.versions) in
    if is_empty records then none else some records

module _ (save : Versions → Bool) where
  -- Appends a record to the history of the key and saves the histories.
  unfoldable pub append_record :
      Str → PolicyVersionRecord → PolicyVersioner → PolicyVersioner × Option VersionError
  append_record key x pv =
      let versions = insert key (or_nil (lookup key pv.versions) ++ x ∷ []) pv.versions in
      if save versions
      then (record pv { versions = versions; saved = some versions }, none)
      else (record pv { versions = versions }, some not_saved)

  unfoldable pub create :
      RoutePolicy → (actor reason : Str) → PolicyVersioner → PolicyVersioner × Option VersionError
  unfolding append_record policy_key
  create policy actor reason pv =
      let (registry, error) = register_policy policy pv.registry in
      let x : PolicyVersionRecord = record {
        policy_name = policy.name;
        environment = policy.environment;
        version = 1;
        policy = policy;
        actor = trim_space actor;
        reason = stated (trim_space reason);
      } in
      let done =
        append_record (policy_key policy.name policy.environment) x
          (record pv { registry = registry }) in
      if is_empty (trim_space actor)
      then (pv, some actor_required)
      else elim error [ some e ↦ (pv, some (refused e)) | none ↦ done ]

  -- `policy` is the normalized policy here.
  unfoldable pub update_with :
      RoutePolicy → (actor reason : Str) → PolicyVersioner → PolicyVersioner × Option VersionError
  unfolding append_record policy_key replace_policy
  update_with policy actor reason pv =
      let (registry, error) = replace_policy policy pv.registry in
      let key = policy_key policy.name policy.environment in
      let x : PolicyVersionRecord = record {
        policy_name = policy.name;
        environment = policy.environment;
        version = length (or_nil (lookup key pv.versions)) + 1;
        policy = policy;
        actor = trim_space actor;
        reason = stated (trim_space reason);
      } in
      let done = append_record key x (record pv { registry = registry }) in
      elim error [ some e ↦ (pv, some e) | none ↦ done ]

  unfoldable pub update :
      RoutePolicy → (actor reason : Str) → PolicyVersioner → PolicyVersioner × Option VersionError
  unfolding update_with clean_policy
  update policy actor reason pv =
      let done = update_with (clean_policy policy) actor reason pv in
      if is_empty (trim_space actor)
      then (pv, some actor_required)
      else elim (get_policy policy.name pv.registry) [
        | none ↦ (pv, some not_found)
        | some current ↦
            if not (str_eq current.environment policy.environment)
            then (pv, some environment_mismatch)
            else done
      ]

  -- The rest of Rollback, once the target is found.
  unfoldable pub rollback_with :
      PolicyVersionRecord
      → (name environment : Str) (to_version : ℕ) (actor reason : Str) → PolicyVersioner
      → PolicyVersioner × Option VersionError
  unfolding append_record policy_key replace_policy
  rollback_with target name environment to_version actor reason pv =
      let (registry, error) = replace_policy target.policy pv.registry in
      let key = policy_key name environment in
      let x : PolicyVersionRecord = record {
        policy_name = name;
        environment = environment;
        version = length (or_nil (lookup key pv.versions)) + 1;
        policy = target.policy;
        actor = trim_space actor;
        reason = rollback_to to_version (trim_space reason);
      } in
      let done = append_record key x (record pv { registry = registry }) in
      elim error [ some e ↦ (pv, some e) | none ↦ done ]

  unfoldable pub rollback :
      (name environment : Str) (to_version : ℤ) (actor reason : Str)
      → PolicyVersioner
      → PolicyVersioner × Option VersionError
  unfolding rollback_with policy_key
  rollback name environment to_version actor reason pv =
      let records = or_nil (lookup (policy_key name environment) pv.versions) in
      if is_empty (trim_space actor)
      then (pv, some actor_required)
      else if is_empty records
      then (pv, some no_history)
      else if ltb_ℤ to_version (pos 1) || ltb_ℤ (pos (length records)) to_version
      then (pv, some out_of_range)
      else elim (nth_record (pos_part to_version - 1) records) [
        | none ↦ (pv, some out_of_range)
        | some target ↦ rollback_with target name environment (pos_part to_version) actor reason pv
      ]
