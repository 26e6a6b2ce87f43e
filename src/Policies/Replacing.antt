-- ===== src/Policies/Replacing.antt =====
-- Update and Rollback replace the active policy and append a record
-- (pkg/runtime/policy_versioning.go).
use fgoths_framework.Prelude.{
  ◌≡◌, refl, Bool, true, false, not, ◌||◌, inl, inr, Option, none, some, is_empty, length,
  if◌then◌else◌, if_cases, sym, subst,
}
use fgoths_framework.Prelude.Int.{ℤ, pos, pos_part, ltb_ℤ}
use fgoths_framework.Prelude.Text.{Str, str_eq, trim_space}
use fgoths_framework.Prelude.Maps.{lookup}
use fgoths_framework.Registry.State.{RoutePolicy, RouteRegistry}
use fgoths_framework.Registry.Routes.{get_policy}
use fgoths_framework.Policies.Versions.{
  PolicyVersionRecord, Versions, PolicyVersioner, VersionError, actor_required, not_found,
  environment_mismatch, no_history, out_of_range, or_nil, policy_key, replace_policy, append_record,
  update_with, update, rollback_with, rollback,
}
use fgoths_framework.Policies.Steps.{
  replace_policy-cases, Replaced, is_refused, updated_record, updated_key, rollback_record,
  target_of, RolledBack, append_record-Appends,
}

module _ (save : Versions → Bool) where
  -- Replaces the policy of the record and appends it, the end of both Update and Rollback.
  abbrev replace_and_append :
      Str → PolicyVersionRecord → PolicyVersioner → PolicyVersioner × Option VersionError
  replace_and_append key x pv =
      let (registry, error) = replace_policy x.policy pv.registry in
      let done = append_record save key x (record pv { registry = registry }) in
      elim error [ some e ↦ (pv, some e) | none ↦ done ]

  replace_and_append-Replaced :
      (key : Str) (x : PolicyVersionRecord) (pv : PolicyVersioner)
      → Replaced save key x pv (replace_and_append key x pv)
  replace_and_append-Replaced key x pv = elim (replace_policy-cases x.policy pv.registry) [
    | inl fails ↦ failed (replace_policy x.policy pv.registry) fails
    | inr (done, there) ↦
        subst
          (λ (after : RouteRegistry × Option VersionError). Replaced save key x pv (elim after.1 [
            | some e ↦ (pv, some e)
            | none ↦ append_record save key x (record pv { registry = after.0 })
          ]))
          (sym done) (inr (there, append_record-Appends save key x pv))
  ]
    where
      failed :
          (after : RouteRegistry × Option VersionError)
          → is_refused after.1 ≡ true
          → Replaced save key x pv (elim after.1 [
            | some e ↦ (pv, some e)
            | none ↦ append_record save key x (record pv { registry = after.0 })
          ])
      failed (r, some e) h = inl (refl, h)
      failed (r, none) h = cc

  pub update-Replaced :
      (policy : RoutePolicy) (actor reason : Str) (pv : PolicyVersioner)
      → Replaced save
          (updated_key policy)
          (updated_record policy actor reason pv)
          pv
          (update save policy actor reason pv)
  unfolding update update_with
  update-Replaced policy actor reason pv =
      split (is_empty (trim_space actor)) (get_policy policy.name pv.registry) _ (
        replace_and_append-Replaced (updated_key policy) (updated_record policy actor reason pv) pv)
    where
      split :
          (blank : Bool) (found : Option RoutePolicy) (done : PolicyVersioner × Option VersionError)
          → Replaced save (updated_key policy) (updated_record policy actor reason pv) pv done
          → Replaced save (updated_key policy) (updated_record policy actor reason pv) pv (
              if blank then (pv, some actor_required) else elim found [
                | none ↦ (pv, some not_found)
                | some current ↦
                    if not (str_eq current.environment policy.environment)
                    then (pv, some environment_mismatch)
                    else done
              ])
      split true found done d = inl (refl, refl)
      split false none done d = inl (refl, refl)
      split false (some current) done d =
          if_cases
            (λ after.
              Replaced save (updated_key policy) (updated_record policy actor reason pv) pv after)
            (not (str_eq current.environment policy.environment)) (pv, some environment_mismatch)
            done (λ e. inl (refl, refl)) (λ e. d)

  pub rollback-RolledBack :
      (name environment : Str) (to_version : ℤ) (actor reason : Str) (pv : PolicyVersioner)
      → RolledBack save name environment to_version actor reason pv
          (rollback save name environment to_version actor reason pv)
  unfolding rollback rollback_with
  rollback-RolledBack name environment to_version actor reason pv =
      let records = or_nil (lookup (policy_key name environment) pv.versions) in
      split (is_empty (trim_space actor)) (is_empty records)
        (ltb_ℤ to_version (pos 1) || ltb_ℤ (pos (length records)) to_version)
        (target_of name environment to_version pv) refl
    where
      rolled :
          (target : PolicyVersionRecord)
          → target_of name environment to_version pv ≡ some target
          → RolledBack save name environment to_version actor reason pv
              (rollback_with save target name environment (pos_part to_version) actor reason pv)
      rolled target e =
          elim (replace_and_append-Replaced (policy_key name environment)
            (rollback_record target name environment (pos_part to_version) actor reason pv) pv) [
              | inl fails ↦ inl fails
              | inr (there, appended) ↦ inr (target, e, there, appended)
            ]

      split :
          (blank unknown outside : Bool) (found : Option PolicyVersionRecord)
          → target_of name environment to_version pv ≡ found
          → RolledBack save name environment to_version actor reason pv (
              if blank
              then (pv, some actor_required)
              else if unknown
              then (pv, some no_history)
              else if outside
              then (pv, some out_of_range)
              else elim found [
                | none ↦ (pv, some out_of_range)
                | some target ↦
                    rollback_with save target name environment (pos_part to_version) actor reason pv
              ])
      split true unknown outside found e = inl (refl, refl)
      split false true outside found e = inl (refl, refl)
      split false false true found e = inl (refl, refl)
      split false false false none e = inl (refl, refl)
      split false false false (some target) e = rolled target e
