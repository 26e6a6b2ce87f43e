-- ===== src/Policies/Appending.antt =====
-- Each change appends (pkg/runtime/policy_versioning.go).
use mathlib.Core.List.{append-nil, append_assoc}
use fgoths_framework.Prelude.{
  ◌≡◌, ◌⊎◌, Bool, true, inl, inr, List, [], ◌∷◌, ◌++◌, Option, some, false, is_some, arith,
  if◌then◌else◌, ap, sym, ◌∙◌,
}
use fgoths_framework.Prelude.Int.{pos_part}
use fgoths_framework.Prelude.Text.{Str, str_eq, str_eq_iff, trim_space}
use fgoths_framework.Prelude.Maps.{lookup}
use fgoths_framework.Policies.Versions.{
  PolicyVersionRecord, Versions, PolicyVersioner, VersionError, policy_key,
}
use fgoths_framework.Policies.Replacing.{update-Replaced, rollback-RolledBack}
use fgoths_framework.Policies.Steps.{
  IsAppended, created_record, updated_record, updated_key, rollback_record, create-Outcome, Appends,
  target_of, is_refused,
}
use fgoths_framework.Policies.Numbering.{
  PolicyChange, creation, revision, reversal, apply_change, apply_changes, records_at,
  records_at-after,
}

-- What a change that is not refused does: a creation takes a free name and begins with the policy as
-- given; an update replaces a registered policy; a rollback brings back the record that has the number
-- asked for in the history of the name and environment of the call.
abbrev pub Effect :
    (Versions → Bool)
    → PolicyChange
    → PolicyVersioner
    → PolicyVersioner × Option VersionError
    → Type 0
Effect save (creation policy actor reason) pv after =
    (is_some (lookup (trim_space policy.name) pv.registry.policies) ≡ false)
    × Appends save (policy_key policy.name policy.environment) (created_record policy actor reason)
        pv after
Effect save (revision policy actor reason) pv after =
    (is_some (
        lookup (trim_space (updated_record policy actor reason pv).policy.name)
          pv.registry.policies)
      ≡ true)
    × Appends save (updated_key policy) (updated_record policy actor reason pv) pv after
Effect save (reversal name environment to_version actor reason) pv after =
    (target : PolicyVersionRecord) × (target_of name environment to_version pv ≡ some target)
    × (is_some (lookup (trim_space target.policy.name) pv.registry.policies) ≡ true)
    × Appends save (policy_key name environment)
        (rollback_record target name environment (pos_part to_version) actor reason pv) pv after

-- A change either is refused with an error other than that of the store, and leaves the versioner as
-- it was; or it returns the error of the store, none if the store saves, and appends to the history
-- of its name and environment the record with its policy, actor and reason and the next version, 1 for
-- a creation, and makes that policy, normalized, the active one under its name; it changes no other
-- policy and no other history. The policy of a rollback is that of the record it goes back to. A
-- creation that is not refused found the name free, any other change found the policy registered.
pub apply_change-appends :
    (save : Versions → Bool) (c : PolicyChange) (pv : PolicyVersioner)
    → let after = apply_change save c pv in
      ((after.0 ≡ pv) × (is_refused after.1 ≡ true)) ⊎ Effect save c pv after
apply_change-appends save (creation policy actor reason) pv =
    create-Outcome save policy actor reason pv
apply_change-appends save (revision policy actor reason) pv =
    update-Replaced save policy actor reason pv
apply_change-appends save (reversal name environment to_version actor reason) pv =
    rollback-RolledBack save name environment to_version actor reason pv

Effect-IsAppended :
    (save : Versions → Bool) (c : PolicyChange) (pv : PolicyVersioner)
    (after : PolicyVersioner × Option VersionError)
    → Effect save c pv after
    → (key : Str) × (x : PolicyVersionRecord) × IsAppended key x pv after.0
Effect-IsAppended save (creation policy actor reason) pv after (_, (a, _)) =
    (policy_key policy.name policy.environment, created_record policy actor reason, a)
Effect-IsAppended save (revision policy actor reason) pv after (_, (a, _)) =
    (updated_key policy, updated_record policy actor reason pv, a)
Effect-IsAppended save (reversal name environment to_version actor reason) pv after
      (target, _, _, (a, _)) =
    (
      policy_key name environment,
      rollback_record target name environment (pos_part to_version) actor reason pv,
      a,
    )

-- The second list goes on where the first ends.
abbrev pub Extends : List PolicyVersionRecord → List PolicyVersionRecord → Type 0
Extends xs ys = (zs : List PolicyVersionRecord) × (ys ≡ xs ++ zs)

apply_change-Extends :
    (save : Versions → Bool) (c : PolicyChange) (pv : PolicyVersioner) (key : Str)
    → Extends (records_at key pv) (records_at key (apply_change save c pv).0)
apply_change-Extends save c pv key = elim (apply_change-appends save c pv) [
  | inl (same, e) ↦ ([], ap (records_at key) same ∙ sym (append-nil (records_at key pv)))
  | inr effect ↦
      let (k, x, a) = Effect-IsAppended save c pv (apply_change save c pv) effect in
      (
        if str_eq k key then x ∷ [] else [],
        ground (
          arith,
          records_at-after k key x pv (apply_change save c pv).0 a,
          append-nil (records_at key pv),
          str_eq_iff k key,
        ),
      )
]

-- No change rewrites history: after any changes every history begins with the records it had before.
apply_changes-Extends :
    (save : Versions → Bool) (cs : List PolicyChange) (pv : PolicyVersioner) (key : Str)
    → Extends (records_at key pv) (records_at key (apply_changes save cs pv))
apply_changes-Extends save [] pv key = ([], sym (append-nil (records_at key pv)))
apply_changes-Extends save (c ∷ cs) pv key =
    let (xs, e) = apply_change-Extends save c pv key in
    let (ys, f) = apply_changes-Extends save cs (apply_change save c pv).0 key in
    (xs ++ ys, f ∙ ap (λ zs. zs ++ ys) e ∙ append_assoc (records_at key pv) xs ys)
