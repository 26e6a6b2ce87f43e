-- ===== src/Policies/Numbering.antt =====
-- The histories after any changes (pkg/runtime/policy_versioning.go).
use fgoths_framework.Prelude.{
  ℕ, suc, ◌+◌, ◌≡◌, refl, Bool, true, false, not, ◌&&◌, inl, inr, List, [], ◌∷◌, ◌++◌, Option, none,
  some, is_empty, is_some, length, ◌==◌, arith, if◌then◌else◌, ap, sym, subst, ◌∙◌,
}
use fgoths_framework.Prelude.Int.{ℤ, pos_part}
use fgoths_framework.Prelude.Text.{Str, str_eq, str_eq_iff, trim_space}
use fgoths_framework.Prelude.Maps.{lookup, lookup-insert}
use fgoths_framework.Registry.State.{RoutePolicy, RouteRegistry, new_route_registry}
use fgoths_framework.Registry.Routes.{clean_policy}
use fgoths_framework.Policies.Versions.{
  PolicyVersionRecord, Versions, PolicyVersioner, VersionError, new_policy_versioner, or_nil,
  policy_key, create, update, rollback,
}
use fgoths_framework.Policies.Replacing.{update-Replaced, rollback-RolledBack}
use fgoths_framework.Policies.Steps.{
  IsAppended, extended, created_record, updated_record, updated_key, rollback_record, target_of,
  create-Outcome,
}

pub data PolicyChange : Type 0 where
  creation : (policy : RoutePolicy) (actor reason : Str) → PolicyChange
  revision : (policy : RoutePolicy) (actor reason : Str) → PolicyChange
  reversal : (name environment : Str) (to_version : ℤ) (actor reason : Str) → PolicyChange

abbrev pub slash_free : Str → Bool
slash_free [] = true
slash_free (b ∷ s) = not (b == b'/') && slash_free s

abbrev pub before_slash : Str → Str
before_slash [] = []
before_slash (b ∷ s) = let rest = before_slash s in if b == b'/' then [] else b ∷ rest

before_slash-append : (s t : Str) → slash_free s ≡ true → before_slash (s ++ (b'/' ∷ t)) ≡ s
before_slash-append [] t h = refl
before_slash-append (b ∷ s) t h = ground (arith, before_slash-append s t)

-- Numbered from n on, without a gap.
abbrev pub Numbered : ℕ → List PolicyVersionRecord → Type 0
Numbered n [] = Unit
Numbered n (x ∷ xs) = (x.version ≡ n) × Numbered (suc n) xs

Numbered-append :
    (n : ℕ) (xs : List PolicyVersionRecord) (x : PolicyVersionRecord)
    → Numbered n xs
    → x.version ≡ length xs + n
    → Numbered n (xs ++ x ∷ [])
Numbered-append n [] x h e = (omega (arith, e), tt)
Numbered-append n (y ∷ ys) x h e = (h.0, Numbered-append (suc n) ys x h.1 (omega (arith, e)))

abbrev pub records_at : Str → PolicyVersioner → List PolicyVersionRecord
records_at key pv = or_nil (lookup key pv.versions)

records_at-extended :
    (key k : Str) (x : PolicyVersionRecord) (m : Versions)
    → or_nil (lookup k (extended key x m))
      ≡ (if str_eq key k then or_nil (lookup key m) ++ x ∷ [] else or_nil (lookup k m))
records_at-extended key k x m =
    ground (arith, lookup-insert key k (or_nil (lookup key m) ++ x ∷ []) m)

abbrev registered : Str → PolicyVersioner → Bool
registered name pv = is_some (lookup name pv.registry.policies)

pub record IsNumbered (pv : PolicyVersioner) : Type 0 where
  pub named : (name : Str) → registered name pv ≡ true → slash_free name ≡ true
  pub keyed :
      (key : Str) → is_empty (records_at key pv) ≡ false → registered (before_slash key) pv ≡ true
  pub numbered : (key : Str) → Numbered 1 (records_at key pv)

registered-after :
    (key name : Str) (x : PolicyVersionRecord) (pv pv' : PolicyVersioner)
    → IsAppended key x pv pv'
    → registered name pv'
      ≡ (if str_eq (trim_space x.policy.name) name then true else registered name pv)
registered-after key name x pv pv' a =
    ap (λ (r : RouteRegistry). is_some (lookup name r.policies)) a.registry
    ∙ ground (
      arith,
      lookup-insert (trim_space x.policy.name) name (clean_policy x.policy) pv.registry.policies,
    )

pub records_at-after :
    (key k : Str) (x : PolicyVersionRecord) (pv pv' : PolicyVersioner)
    → IsAppended key x pv pv'
    → records_at k pv' ≡ (if str_eq key k then records_at key pv ++ x ∷ [] else records_at k pv)
records_at-after key k x pv pv' a =
    ap (λ m. or_nil (lookup k m)) a.versions ∙ records_at-extended key k x pv.versions

IsAppended-IsNumbered :
    (key : Str) (x : PolicyVersionRecord) (pv pv' : PolicyVersioner)
    → IsAppended key x pv pv'
    → slash_free (trim_space x.policy.name) ≡ true
    → registered (before_slash key) pv' ≡ true
    → x.version ≡ length (records_at key pv) + 1
    → IsNumbered pv
    → IsNumbered pv'
IsAppended-IsNumbered key x pv pv' a s k v n = record {
  named = λ name h. ground (
    arith,
    registered-after key name x pv pv' a,
    str_eq_iff (trim_space x.policy.name) name,
    n.named name,
  );
  keyed = λ j h. ground (
    arith,
    records_at-after key j x pv pv' a,
    registered-after key (before_slash j) x pv pv' a,
    str_eq_iff key j,
    n.keyed j,
  );
  numbered = λ j. ground (
    arith,
    records_at-after key j x pv pv' a,
    Numbered-append 1 (records_at key pv) x (n.numbered key) v,
    n.numbered j,
  );
}

-- The condition on the names: those of new policies have no slash.
abbrev pub SlashFree : PolicyChange → Type 0
SlashFree (creation policy actor reason) = slash_free (trim_space policy.name) ≡ true
SlashFree (revision policy actor reason) = Unit
SlashFree (reversal name environment to_version actor reason) = Unit

abbrev pub AllSlashFree : List PolicyChange → Type 0
AllSlashFree [] = Unit
AllSlashFree (c ∷ cs) = SlashFree c × AllSlashFree cs

before_slash-policy_key :
    (name environment : Str)
    → slash_free (trim_space name) ≡ true
    → before_slash (policy_key name environment) ≡ trim_space name
unfolding policy_key
before_slash-policy_key name environment h =
    before_slash-append (trim_space name) (trim_space environment) h

nth_record-is_empty :
    (name environment : Str) (to_version : ℤ) (pv : PolicyVersioner) (target : PolicyVersionRecord)
    → target_of name environment to_version pv ≡ some target
    → is_empty (records_at (policy_key name environment) pv) ≡ false
nth_record-is_empty name environment to_version pv target e = ground arith

module _ (save : Versions → Bool) where
  abbrev pub apply_change : PolicyChange → PolicyVersioner → PolicyVersioner × Option VersionError
  apply_change (creation policy actor reason) pv = create save policy actor reason pv
  apply_change (revision policy actor reason) pv = update save policy actor reason pv
  apply_change (reversal name environment to_version actor reason) pv =
      rollback save name environment to_version actor reason pv

  create-IsNumbered :
      (policy : RoutePolicy) (actor reason : Str) (pv : PolicyVersioner)
      → slash_free (trim_space policy.name) ≡ true
      → IsNumbered pv
      → IsNumbered (create save policy actor reason pv).0
  create-IsNumbered policy actor reason pv h n =
      let key = policy_key policy.name policy.environment in
      let x = created_record policy actor reason in
      let pv' = (create save policy actor reason pv).0 in
      elim (create-Outcome save policy actor reason pv) [
        | inl (same, e) ↦ subst IsNumbered (sym same) n
        | inr (free, (a, _)) ↦
            let b = before_slash-policy_key policy.name policy.environment h in
            IsAppended-IsNumbered key x pv pv' a h
              (ground (
                arith,
                b,
                registered-after key (before_slash key) x pv pv' a,
                str_eq_iff (trim_space policy.name) (before_slash key),
              ))
              (ground (arith, b, n.keyed key)) n
      ]

  update-IsNumbered :
      (policy : RoutePolicy) (actor reason : Str) (pv : PolicyVersioner)
      → IsNumbered pv
      → IsNumbered (update save policy actor reason pv).0
  update-IsNumbered policy actor reason pv n =
      let key = updated_key policy in
      let x = updated_record policy actor reason pv in
      let pv' = (update save policy actor reason pv).0 in
      elim (update-Replaced save policy actor reason pv) [
        | inl (same, e) ↦ subst IsNumbered (sym same) n
        | inr (there, (a, _)) ↦
            let h = n.named (trim_space x.policy.name) there in
            let b =
              before_slash-policy_key (clean_policy policy).name (clean_policy policy).environment
                h in
            IsAppended-IsNumbered key x pv pv' a h
              (ground (
                arith,
                b,
                registered-after key (before_slash key) x pv pv' a,
                str_eq_iff (trim_space x.policy.name) (before_slash key),
              ))
              refl n
      ]

  rollback-IsNumbered :
      (name environment : Str) (to_version : ℤ) (actor reason : Str) (pv : PolicyVersioner)
      → IsNumbered pv
      → IsNumbered (rollback save name environment to_version actor reason pv).0
  rollback-IsNumbered name environment to_version actor reason pv n =
      let key = policy_key name environment in
      let pv' = (rollback save name environment to_version actor reason pv).0 in
      elim (rollback-RolledBack save name environment to_version actor reason pv) [
        | inl (same, e) ↦ subst IsNumbered (sym same) n
        | inr (target, found, there, (a, _)) ↦
            let x = rollback_record target name environment (pos_part to_version) actor reason pv in
            let old =
              n.keyed key (nth_record-is_empty name environment to_version pv target found) in
            IsAppended-IsNumbered key x pv pv' a (n.named (trim_space target.policy.name) there)
              (ground (arith, old, registered-after key (before_slash key) x pv pv' a)) refl n
      ]

  apply_change-IsNumbered :
      (c : PolicyChange) (pv : PolicyVersioner)
      → SlashFree c
      → IsNumbered pv
      → IsNumbered (apply_change c pv).0
  apply_change-IsNumbered (creation policy actor reason) pv h n =
      create-IsNumbered policy actor reason pv h n
  apply_change-IsNumbered (revision policy actor reason) pv h n =
      update-IsNumbered policy actor reason pv n
  apply_change-IsNumbered (reversal name environment to_version actor reason) pv h n =
      rollback-IsNumbered name environment to_version actor reason pv n

  abbrev pub apply_changes : List PolicyChange → PolicyVersioner → PolicyVersioner
  apply_changes [] pv = pv
  apply_changes (c ∷ cs) pv = apply_changes cs (apply_change c pv).0

  pub apply_changes-IsNumbered :
      (cs : List PolicyChange) (pv : PolicyVersioner)
      → AllSlashFree cs
      → IsNumbered pv
      → IsNumbered (apply_changes cs pv)
  apply_changes-IsNumbered [] pv h n = n
  apply_changes-IsNumbered (c ∷ cs) pv h n =
      apply_changes-IsNumbered cs (apply_change c pv).0 h.1 (apply_change-IsNumbered c pv h.0 n)

-- A versioner over an empty registry and an empty store.
abbrev pub fresh_versioner : PolicyVersioner
fresh_versioner = new_policy_versioner new_route_registry none

pub fresh_versioner-IsNumbered : IsNumbered fresh_versioner
unfolding new_policy_versioner new_route_registry lookup
fresh_versioner-IsNumbered = record {
  named = λ name h. cc;
  keyed = λ key h. cc;
  numbered = λ key. tt;
}

-- After any changes from an empty versioner, whether they succeed, fail or are not saved, every history
-- is numbered 1, 2, 3 and so on, if no name given to Create has a slash.
pub apply_changes-Numbered :
    (save : Versions → Bool) (cs : List PolicyChange) (key : Str)
    → AllSlashFree cs
    → Numbered 1 (records_at key (apply_changes save cs fresh_versioner))
apply_changes-Numbered save cs key h =
    (apply_changes-IsNumbered save cs fresh_versioner h fresh_versioner-IsNumbered).numbered key
