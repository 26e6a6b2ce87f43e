-- ===== src/Policies/Restart.antt =====
-- NewPolicyVersioner on the histories that a store has (pkg/runtime/policy_versioning.go).
use mathlib.Core.List.{Memᴰ}
use fgoths_framework.Prelude.{
  ◌≡◌, ◌⊎◌, refl, false, inl, inr, List, [], ◌∷◌, Option, none, some, is_empty, is_some, All, arith,
  if◌then◌else◌, Bool-cases, ap, sym, subst, ◌∙◌,
}
use fgoths_framework.Prelude.Text.{Str, str_eq, str_eq_iff, trim_space}
use fgoths_framework.Prelude.Maps.{lookup, lookup-insert}
use fgoths_framework.Registry.State.{RoutePolicy, RouteRegistry, new_route_registry}
use fgoths_framework.Registry.Routes.{clean_policy, policy_error, register_policy, get_policy}
use fgoths_framework.Policies.Versions.{
  PolicyVersionRecord, Versions, last_of, restore_latest, restore_all, new_policy_versioner,
}

-- The record of a policy that RegisterPolicy takes, under the policy's own name.
pub record IsRestorable (x : PolicyVersionRecord) : Type 0 where
  pub same_name : trim_space x.policy_name ≡ trim_space x.policy.name
  pub named : is_empty (trim_space x.policy.name) ≡ false
  pub served : is_empty (trim_space x.policy.service) ≡ false

abbrev restored : RouteRegistry → Option PolicyVersionRecord → RouteRegistry
restored r none = r
restored r (some x) =
    if is_some (get_policy x.policy_name r) then r else (register_policy x.policy r).0

restore_latest-restored :
    (r : RouteRegistry) (records : List PolicyVersionRecord) (o : Option PolicyVersionRecord)
    → last_of records ≡ o
    → restore_latest r records ≡ restored r o
unfolding restore_latest
restore_latest-restored r records o e = split (last_of records) ∙ ap (restored r) e
  where
    split :
        (latest : Option PolicyVersionRecord)
        → (elim latest [
          | none ↦ r
          | some x ↦
              if is_some (get_policy x.policy_name r) then r else (register_policy x.policy r).0
        ])
          ≡ restored r latest
    split none = refl
    split (some x) = refl

abbrev pub active : Str → RouteRegistry → Option RoutePolicy
active name r = lookup name r.policies

restore_latest-keeps :
    (name : Str) (p : RoutePolicy) (r : RouteRegistry) (records : List PolicyVersionRecord)
    → active name r ≡ some p
    → active name (restore_latest r records) ≡ some p
unfolding get_policy register_policy policy_error
restore_latest-keeps name p r records h =
    ap (active name) (restore_latest-restored r records (last_of records) refl)
    ∙ split (last_of records)
  where
    split : (latest : Option PolicyVersionRecord) → active name (restored r latest) ≡ some p
    split none = h
    split (some x) = ground (
      arith,
      h,
      lookup-insert (trim_space x.policy.name) name (clean_policy x.policy) r.policies,
      str_eq_iff (trim_space x.policy.name) name,
    )

restore_all-keeps :
    (name : Str) (p : RoutePolicy) (r : RouteRegistry) (m : Versions)
    → active name r ≡ some p
    → active name (restore_all r m) ≡ some p
unfolding restore_all
restore_all-keeps name p r [] h = h
restore_all-keeps name p r ((k, records) ∷ m) h =
    restore_all-keeps name p (restore_latest r records) m (restore_latest-keeps name p r records h)

restore_latest-adds :
    (x : PolicyVersionRecord) (r : RouteRegistry) (records : List PolicyVersionRecord)
    → last_of records ≡ some x
    → IsRestorable x
    → active (trim_space x.policy.name) r ≡ none
    → active (trim_space x.policy.name) (restore_latest r records) ≡ some (clean_policy x.policy)
unfolding get_policy register_policy policy_error
restore_latest-adds x r records e s h =
    ap (active (trim_space x.policy.name)) (restore_latest-restored r records (some x) e)
    ∙ ground (
      arith,
      h,
      s.same_name,
      s.named,
      s.served,
      ap (λ n. lookup n r.policies) s.same_name,
      lookup-insert (trim_space x.policy.name) (trim_space x.policy.name) (clean_policy x.policy)
          r.policies,
      str_eq_iff (trim_space x.policy.name) (trim_space x.policy.name),
    )

active-empty : (name : Str) → active name new_route_registry ≡ none
unfolding new_route_registry lookup
active-empty name = refl

-- Whichever history Go visits first decides: the policy of its latest record is the active one, whatever
-- the histories that follow say about that name.
restore_all-first :
    (key : Str) (records : List PolicyVersionRecord) (x : PolicyVersionRecord) (m : Versions)
    → last_of records ≡ some x
    → IsRestorable x
    → active (trim_space x.policy.name) (restore_all new_route_registry ((key, records) ∷ m))
      ≡ some (clean_policy x.policy)
unfolding restore_all
restore_all-first key records x m e s =
    restore_all-keeps (trim_space x.policy.name) (clean_policy x.policy)
      (restore_latest new_route_registry records) m
      (restore_latest-adds x new_route_registry records e s
        (active-empty (trim_space x.policy.name)))

-- A history whose latest record, if it has the name of x, has the policy of x.
abbrev pub AgreesWith : PolicyVersionRecord → List PolicyVersionRecord → Type 0
AgreesWith x records =
    (y : PolicyVersionRecord)
    → last_of records ≡ some y
    → (trim_space y.policy_name ≡ trim_space y.policy.name)
      × (trim_space y.policy.name ≡ trim_space x.policy.name → y.policy ≡ x.policy)

restore_latest-either :
    (x : PolicyVersionRecord) (r : RouteRegistry) (records : List PolicyVersionRecord)
    → AgreesWith x records
    → active (trim_space x.policy.name) r ≡ none
    → (active (trim_space x.policy.name) (restore_latest r records) ≡ none)
      ⊎ (active (trim_space x.policy.name) (restore_latest r records)
          ≡ some (clean_policy x.policy))
unfolding get_policy register_policy policy_error
restore_latest-either x r records agree h =
    subst
      (λ r'.
        (active (trim_space x.policy.name) r' ≡ none)
        ⊎ (active (trim_space x.policy.name) r' ≡ some (clean_policy x.policy)))
      (sym (restore_latest-restored r records (last_of records) refl))
      (split (last_of records) agree)
  where
    added :
        (y : PolicyVersionRecord)
        → (trim_space y.policy.name ≡ trim_space x.policy.name → y.policy ≡ x.policy)
        → (active (trim_space x.policy.name) (restored r (some y)) ≡ none)
          ⊎ (active (trim_space x.policy.name) (restored r (some y)) ≡ some (clean_policy x.policy))
    added y g = elim (Bool-cases (str_eq (trim_space y.policy.name) (trim_space x.policy.name))) [
      | inl same ↦
          let p =
            ap clean_policy
              (g ((str_eq_iff (trim_space y.policy.name) (trim_space x.policy.name)).0 same)) in
          ground (
            arith,
            h,
            p,
            same,
            lookup-insert (trim_space y.policy.name) (trim_space x.policy.name)
                (clean_policy y.policy) r.policies,
          )
      | inr other ↦ ground (
        arith,
        h,
        other,
        lookup-insert (trim_space y.policy.name) (trim_space x.policy.name) (clean_policy y.policy)
            r.policies,
      )
    ]

    split :
        (latest : Option PolicyVersionRecord)
        → ((y : PolicyVersionRecord)
            → latest ≡ some y
            → (trim_space y.policy_name ≡ trim_space y.policy.name)
              × (trim_space y.policy.name ≡ trim_space x.policy.name → y.policy ≡ x.policy))
        → (active (trim_space x.policy.name) (restored r latest) ≡ none)
          ⊎ (active (trim_space x.policy.name) (restored r latest) ≡ some (clean_policy x.policy))
    split none g = inl h
    split (some y) g = added y (g y refl).1

restore_all-agreed :
    (key : Str) (records : List PolicyVersionRecord) (x : PolicyVersionRecord) (r : RouteRegistry)
    (m : Versions)
    → Memᴰ (key, records) m
    → last_of records ≡ some x
    → IsRestorable x
    → All (λ e. AgreesWith x e.1) m
    → active (trim_space x.policy.name) r ≡ none
    → active (trim_space x.policy.name) (restore_all r m) ≡ some (clean_policy x.policy)
unfolding restore_all
restore_all-agreed key records x r [] t e s g h = elim t [ ]
restore_all-agreed key records x r ((k, others) ∷ m) (Memᴰ.head q) e s g h =
    let same : last_of others ≡ some x =
      ap {B = Option PolicyVersionRecord} (λ z. last_of z.1) (sym q) ∙ e in
    restore_all-keeps (trim_space x.policy.name) (clean_policy x.policy) (restore_latest r others) m
      (restore_latest-adds x r others same s h)
restore_all-agreed key records x r ((k, others) ∷ m) (Memᴰ.tail t) e s g h =
    elim (restore_latest-either x r others g.0 h) [
      | inl still ↦ restore_all-agreed key records x (restore_latest r others) m t e s g.1 still
      | inr found ↦
          restore_all-keeps (trim_space x.policy.name) (clean_policy x.policy)
            (restore_latest r others) m found
    ]

-- If every stored history that is not empty ends in a record filed under its policy's own name, and
-- every one that ends in a policy of the same name as the record x ends in the same policy as x, and
-- if x is the latest record of one of them and RegisterPolicy takes its policy, then a versioner that
-- starts with an empty registry has the policy of x, normalized, active, in whatever order Go visits
-- the histories.
pub new_policy_versioner-restores :
    (key : Str) (records : List PolicyVersionRecord) (x : PolicyVersionRecord) (m : Versions)
    → Memᴰ (key, records) m
    → last_of records ≡ some x
    → IsRestorable x
    → All (λ e. AgreesWith x e.1) m
    → get_policy x.policy_name (new_policy_versioner new_route_registry (some m)).registry
      ≡ some (clean_policy x.policy)
unfolding new_policy_versioner get_policy
new_policy_versioner-restores key records x m t e s g =
    ap (λ n. active n (restore_all new_route_registry m)) s.same_name
    ∙ restore_all-agreed key records x new_route_registry m t e s g
        (active-empty (trim_space x.policy.name))
