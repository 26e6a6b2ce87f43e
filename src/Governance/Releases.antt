-- ===== src/Governance/Releases.antt =====
-- The ledger after any calls of Record (pkg/runtime/governance.go).
use mathlib.Core.List.{Memᴰ}
use fgoths_framework.Prelude.{
  ◌≡◌, inl, inr, refl, sym, ap, ◌∙◌, subst, true, false, ◌&&◌, List, [], ◌∷◌, ◌++◌, Option, none,
  some, arith, is_empty, map, Bool-cases, Option-cases, All,
}
use fgoths_framework.Prelude.Text.{Str, str_eq, str_eq_iff, trim_space}
use fgoths_framework.Prelude.Maps.{lookup, lookup2, insert2, lookup2-insert2}
use fgoths_framework.Governance.Approvals.{Distinct, Distinct-snoc}
use fgoths_framework.Governance.Events.{or_nil, last_of}
use fgoths_framework.Governance.Timeline.{last_of-snoc}
use fgoths_framework.Governance.Manifest.{
  DeploymentManifest, fill_policy, manifest_error, validate_manifest, or_default,
}
use fgoths_framework.Governance.Ledger.{
  DeploymentLedger, new_deployment_ledger, has_version, store_manifest, record_manifest,
}

-- Validate accepts the manifest and leaves it as it is.
pub IsAccepted : DeploymentManifest → Type 0
IsAccepted m = validate_manifest m ≡ (m, none)

or_default_idem : (a b : Str) → or_default a (or_default a b) ≡ or_default a b
or_default_idem a b = ground arith

with_targets : DeploymentManifest → Str → Str → DeploymentManifest
with_targets m environment service = record m {
  policy = record (m.policy) { environment = environment; service = service };
}

fill_policy_idem : (m : DeploymentManifest) → fill_policy (fill_policy m) ≡ fill_policy m
unfolding fill_policy with_targets
fill_policy_idem m =
    let env = or_default m.environment m.policy.environment in
    let service = or_default m.service m.policy.service in
    ap (λ x. with_targets m x (or_default m.service service))
      (or_default_idem m.environment m.policy.environment)
    ∙ ap (λ x. with_targets m env x) (or_default_idem m.service m.policy.service)

validate_manifest-fill_policy :
    (m : DeploymentManifest)
    → is_empty (trim_space m.service) ≡ false
    → is_empty (trim_space m.environment) ≡ false
    → validate_manifest m ≡ (fill_policy m, manifest_error (fill_policy m))
unfolding validate_manifest
validate_manifest-fill_policy m service environment =
    rw (service, validate_manifest, environment) refl

fill_policy-IsAccepted :
    (m : DeploymentManifest)
    → is_empty (trim_space m.service) ≡ false
    → is_empty (trim_space m.environment) ≡ false
    → manifest_error (fill_policy m) ≡ none
    → IsAccepted (fill_policy m)
unfolding IsAccepted
fill_policy-IsAccepted m service environment fine =
    let twice : (fill_policy (fill_policy m), manifest_error (fill_policy (fill_policy m)))
        ≡ (fill_policy m, none) =
      ap (λ x. (x, manifest_error x)) (fill_policy_idem m) ∙ ap (λ o. (fill_policy m, o)) fine in
    validate_manifest-fill_policy (fill_policy m) (unfold fill_policy in service)
      (unfold fill_policy in environment)
    ∙ twice

validate_manifest-IsAccepted :
    (m : DeploymentManifest) → (validate_manifest m).1 ≡ none → IsAccepted (validate_manifest m).0
unfolding validate_manifest
validate_manifest-IsAccepted m e = elim (Bool-cases (is_empty (trim_space m.service))) [
  | inl blank ↦ absurd (ground arith)
  | inr service ↦ elim (Bool-cases (is_empty (trim_space m.environment))) [
    | inl blank ↦ absurd (ground arith)
    | inr environment ↦
        rw (service, validate_manifest, environment)
          (fill_policy-IsAccepted m service environment (ground arith))
  ]
]

abbrev pub versions : List DeploymentManifest → List Str
versions ms = map (λ m. m.version) ms

has_version-mem :
    (ms : List DeploymentManifest) (v : Str) → Memᴰ v (versions ms) → has_version v ms ≡ true
unfolding has_version
has_version-mem [] v t = elim t [ ]
has_version-mem (m ∷ ms) v (Memᴰ.head e) = ground (arith, str_eq_iff m.version v, sym e)
has_version-mem (m ∷ ms) v (Memᴰ.tail t) = ground (arith, has_version-mem ms v t)

versions-snoc :
    (ms : List DeploymentManifest) (m : DeploymentManifest)
    → versions (ms ++ m ∷ []) ≡ versions ms ++ m.version ∷ []
versions-snoc [] m = refl
versions-snoc (x ∷ ms) m = ap (◌∷◌ x.version) (versions-snoc ms m)

All-snoc :
    {A : Type 0} (P : A → Type 0) (xs : List A) (x : A) → All P xs → P x → All P (xs ++ x ∷ [])
All-snoc P [] x h p = (p, tt)
All-snoc P (y ∷ xs) x h p = (h.0, All-snoc P xs x h.1 p)

-- What a ledger holds for one service and environment.
pub record IsTrack (service environment : Str) (active : Option DeploymentManifest)
    (past : List DeploymentManifest) : Type 0 where
  pub latest : active ≡ last_of past
  pub distinct : Distinct (versions past)
  pub accepted : All IsAccepted past
  pub filed :
      All (λ m. (trim_space m.service ≡ service) × (trim_space m.environment ≡ environment)) past

pub IsLedger : DeploymentLedger → Type 0
IsLedger l =
    (service environment : Str)
    → IsTrack service environment (lookup2 service environment l.active)
        (or_nil (lookup2 service environment l.past))

IsTrack-snoc :
    (service environment : Str) (active : Option DeploymentManifest)
    (past : List DeploymentManifest) (m : DeploymentManifest)
    → IsTrack service environment active past
    → IsAccepted m
    → has_version m.version past ≡ false
    → trim_space m.service ≡ service
    → trim_space m.environment ≡ environment
    → IsTrack service environment (some m) (past ++ m ∷ [])
IsTrack-snoc service environment active past m t accepted fresh s e = record {
  latest = sym (last_of-snoc past m);
  distinct = subst Distinct (sym (versions-snoc past m)) (
      Distinct-snoc (versions past) m.version t.distinct
        (λ k. ground (arith, has_version-mem past m.version k)));
  accepted = All-snoc IsAccepted past m t.accepted accepted;
  filed =
      All-snoc (λ m. (trim_space m.service ≡ service) × (trim_space m.environment ≡ environment))
        past m t.filed (s, e);
}

store_manifest-IsLedger :
    (m : DeploymentManifest) (l : DeploymentLedger)
    → IsAccepted m
    → IsLedger l
    → IsLedger (store_manifest m l).0
unfolding store_manifest IsLedger
store_manifest-IsLedger m l accepted h s e =
    let service = trim_space m.service in
    let env = trim_space m.environment in
    let before = or_nil (lookup2 service env l.past) in
    elim (Bool-cases (has_version m.version before)) [
      | inl taken ↦ rw (taken, store_manifest) (h s e)
      | inr fresh ↦ elim (Bool-cases (str_eq service s && str_eq env e)) [
        | inl here ↦
            let to_s : service ≡ s = ground (arith, str_eq_iff service s) in
            let to_e : env ≡ e = ground (arith, str_eq_iff env e) in
            let active : lookup2 s e (insert2 service env m l.active) ≡ some m =
              ground (arith, lookup2-insert2 service env s e m l.active, here) in
            let past : lookup2 s e (insert2 service env (before ++ m ∷ []) l.past)
                ≡ some (before ++ m ∷ []) =
              ground (arith, lookup2-insert2 service env s e (before ++ m ∷ []) l.past, here) in
            let track : IsTrack service env (some m) (before ++ m ∷ []) =
              IsTrack-snoc service env (lookup2 service env l.active) before m (h service env)
                accepted fresh refl refl in
            let moved : IsTrack s e (some m) (before ++ m ∷ []) =
              subst (λ x. IsTrack s x (some m) (before ++ m ∷ [])) to_e
                (subst (λ x. IsTrack x env (some m) (before ++ m ∷ [])) to_s track) in
            rw (fresh, store_manifest, active, past) moved
        | inr elsewhere ↦
            let active : lookup2 s e (insert2 service env m l.active) ≡ lookup2 s e l.active =
              ground (arith, lookup2-insert2 service env s e m l.active, elsewhere) in
            let past : lookup2 s e (insert2 service env (before ++ m ∷ []) l.past)
                ≡ lookup2 s e l.past =
              ground
                (arith, lookup2-insert2 service env s e (before ++ m ∷ []) l.past, elsewhere) in
            rw (fresh, store_manifest, active, past) (h s e)
      ]
    ]

record_manifest-IsLedger :
    (m : DeploymentManifest) (l : DeploymentLedger) → IsLedger l → IsLedger (record_manifest m l).0
unfolding record_manifest
record_manifest-IsLedger m l h = elim (Option-cases (validate_manifest m).1) [
  | inr (x, e) ↦ rw (e, record_manifest) h
  | inl e ↦
      rw (e, record_manifest)
        (store_manifest-IsLedger (validate_manifest m).0 l (validate_manifest-IsAccepted m e) h)
]

-- Manifests are recorded one after the other, whether that succeeds or not.
abbrev pub record_all : DeploymentLedger → List DeploymentManifest → DeploymentLedger
record_all l [] = l
record_all l (m ∷ ms) = record_all (record_manifest m l).0 ms

record_all-from :
    (l : DeploymentLedger) (ms : List DeploymentManifest) → IsLedger l → IsLedger (record_all l ms)
record_all-from l [] h = h
record_all-from l (m ∷ ms) h =
    record_all-from (record_manifest m l).0 ms (record_manifest-IsLedger m l h)

-- A new ledger, after any calls of Record: for every service and environment the current manifest is
-- the last one of the history, if there is one, no version stands twice in the history, and every
-- manifest of the history is one that Validate accepts and belongs to that service and environment.
pub record_all-IsLedger :
    (ms : List DeploymentManifest) → IsLedger (record_all new_deployment_ledger ms)
unfolding new_deployment_ledger lookup2 IsLedger last_of or_nil lookup
record_all-IsLedger ms =
    record_all-from new_deployment_ledger ms
      (λ service environment. record { latest = refl; distinct = tt; accepted = tt; filed = tt })
