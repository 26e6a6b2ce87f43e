-- ===== src/Control/PolicyReplies.antt =====
-- What updatePolicy answers (pkg/runtime/controlplane.go).
use fgoths_framework.Prelude.{
  ◌≡◌, ◌+◌, refl, sym, ap, subst, ◌∙◌, ℕ, Bool, true, false, List, [], ◌∷◌, ◌++◌, Option, none,
  some, is_empty, length, arith, inl, inr, if◌then◌else◌,
}
use fgoths_framework.Prelude.Text.{Str, trim_space, trim_space_idem, str_eq_iff}
use fgoths_framework.Registry.State.{RoutePolicy}
use fgoths_framework.Registry.Routes.{clean_policy}
use fgoths_framework.Policies.Versions.{
  PolicyVersionRecord, Versions, PolicyVersioner, VersionError, policy_key, history, update,
}
use fgoths_framework.Policies.Steps.{
  IsAppended, updated_key, updated_record, save_error, is_refused,
}
use fgoths_framework.Policies.Replacing.{update-Replaced}
use fgoths_framework.Policies.Numbering.{records_at, records_at-after}
use fgoths_framework.Control.PolicyHandlers.{
  PolicyRequest, failed, updated_version, last_version, update_status, update_policy,
}

-- Update files the record under the name and the environment of the policy, unless that is blank.
updated_key-named :
    (policy : RoutePolicy)
    → is_empty (trim_space policy.environment) ≡ false
    → updated_key policy ≡ policy_key policy.name policy.environment
unfolding clean_policy policy_key
updated_key-named policy h =
    ground (arith, h, trim_space_idem policy.name, trim_space_idem policy.environment)

last_version-snoc :
    (xs : List PolicyVersionRecord) (x : PolicyVersionRecord)
    → last_version (some (xs ++ x ∷ [])) ≡ x.version
last_version-snoc [] x = refl
last_version-snoc (y ∷ []) x = refl
last_version-snoc (y ∷ z ∷ xs) x = last_version-snoc (z ∷ xs) x

-- After the record is appended, the version that updatePolicy reads is the record's.
history-after :
    (name environment : Str) (x : PolicyVersionRecord) (pv pv' : PolicyVersioner)
    → IsAppended (policy_key name environment) x pv pv'
    → last_version (history name environment pv') ≡ x.version
unfolding history
history-after name environment x pv pv' a =
    let key = policy_key name environment in
    let after : records_at key pv' ≡ records_at key pv ++ x ∷ [] =
      ground (arith, records_at-after key key x pv pv' a, str_eq_iff key key) in
    ap (λ xs. last_version (if is_empty xs then none else some xs)) after ∙ full (records_at key pv)
  where
    full :
        (xs : List PolicyVersionRecord)
        → last_version (if is_empty (xs ++ x ∷ []) then none else some (xs ++ x ∷ [])) ≡ x.version
    full [] = refl
    full (y ∷ xs) = last_version-snoc (y ∷ xs) x

-- What a call of updatePolicy that answers with a version has done.
pub record IsUpdated (save : Versions → Bool) (name : Str) (body : PolicyRequest)
    (pv pv' : PolicyVersioner) (n : ℕ) : Type 0 where
  pub version : n ≡ length (records_at (policy_key name body.policy.environment) pv) + 1
  pub appended :
      IsAppended
        (policy_key name body.policy.environment)
        (updated_record (record (body.policy) { name = name }) body.actor body.reason pv)
        pv
        pv'
  pub saved : save pv'.versions ≡ true

module _ (save : Versions → Bool) (name : Str) (body : PolicyRequest) (pv : PolicyVersioner) where
  abbrev named_policy : RoutePolicy
  named_policy = record (body.policy) { name = name }

  abbrev named_record : PolicyVersionRecord
  named_record = updated_record named_policy body.actor body.reason pv

  answered :
      (after : PolicyVersioner × Option VersionError) (n : ℕ)
      → is_empty (trim_space body.policy.environment) ≡ false
      → IsAppended (updated_key named_policy) named_record pv after.0
      → after.1 ≡ save_error save (updated_key named_policy) named_record pv
      → (elim after.1 [
        | some e ↦ failed (update_status e)
        | none ↦ updated_version (last_version (history name body.policy.environment after.0))
      ])
        ≡ updated_version n
      → IsUpdated save name body pv after.0 n
  answered (pv', some e) n h a err reply = cc
  answered (pv', none) n h a err reply =
      let key : updated_key named_policy ≡ policy_key name body.policy.environment =
        updated_key-named named_policy h in
      let a' = subst (λ k. IsAppended k named_record pv pv') key a in
      let read = history-after name body.policy.environment named_record pv pv' a' in
      let shown : last_version (history name body.policy.environment pv') ≡ n =
        ground (arith, reply) in
      record {
        version = sym shown ∙ read ∙ ap (λ k. length (records_at k pv) + 1) key;
        appended = a';
        saved = ap save a.versions ∙ ground (arith, err);
      }

  -- When updatePolicy answers with a version, to a body with an environment that is not blank, it has
  -- appended one record to the history of the path's name and the body's environment, whatever name the
  -- body has, made the policy under the path's name, normalized, the active one, changed no other
  -- history or policy, and the store has saved the histories; the version that it answers, which it
  -- reads back from the histories, is one more than the number of records before.
  pub update_policy-reports :
      (n : ℕ)
      → is_empty (trim_space body.policy.environment) ≡ false
      → (update_policy save name (some body) pv).1 ≡ updated_version n
      → IsUpdated save name body pv (update_policy save name (some body) pv).0 n
  unfolding update_policy
  update_policy-reports n h reply =
      elim (update-Replaced save named_policy body.actor body.reason pv) [
        | inl (same, refused) ↦
            absurd (no_reply (update save named_policy body.actor body.reason pv) n refused reply)
        | inr (there, (a, err)) ↦
            answered (update save named_policy body.actor body.reason pv) n h a err reply
      ]
    where
      no_reply :
          (after : PolicyVersioner × Option VersionError) (m : ℕ)
          → is_refused after.1 ≡ true
          → (elim after.1 [
            | some e ↦ failed (update_status e)
            | none ↦ updated_version (last_version (history name body.policy.environment after.0))
          ])
            ≡ updated_version m
          → ⊥
      no_reply (pv', some e) m refused r = cc
      no_reply (pv', none) m refused r = cc
