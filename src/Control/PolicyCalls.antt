-- ===== src/Control/PolicyCalls.antt =====
-- Policies through the API (pkg/runtime/controlplane.go).
use fgoths_framework.Prelude.{◌≡◌, refl, sym, subst, Bool, true, List, [], ◌∷◌, Option, none, some}
use fgoths_framework.Prelude.Text.{Str, trim_space}
use fgoths_framework.Policies.Versions.{PolicyVersionRecord, Versions, PolicyVersioner, rollback}
use fgoths_framework.Policies.Numbering.{
  PolicyChange, creation, revision, reversal, apply_changes, slash_free, AllSlashFree,
  fresh_versioner, fresh_versioner-IsNumbered, records_at, Numbered, IsNumbered,
  apply_changes-IsNumbered,
}
use fgoths_framework.Control.PolicyHandlers.{
  PolicyRequest, PolicyRollbackRequest, PolicyReply, failed, rolled_back_to, policy_status,
  create_policy, update_policy, rollback_policy, history_for,
}

-- The calls of the API that change policies; a rollback with the order of its range.
pub data PolicyCall : Type 0 where
  creating : Option PolicyRequest → PolicyCall
  updating : (name : Str) → Option PolicyRequest → PolicyCall
  rolling_back : (name : Str) → Option PolicyRollbackRequest → (order : Versions) → PolicyCall

abbrev pub serve_policy : (Versions → Bool) → PolicyCall → PolicyVersioner → PolicyVersioner
serve_policy save (creating body) pv = (create_policy save body pv).0
serve_policy save (updating name body) pv = (update_policy save name body pv).0
serve_policy save (rolling_back name body order) pv = (rollback_policy save name body order pv).0

abbrev pub serve_policies : (Versions → Bool) → List PolicyCall → PolicyVersioner → PolicyVersioner
serve_policies save [] pv = pv
serve_policies save (c ∷ cs) pv = serve_policies save cs (serve_policy save c pv)

-- The names of the bodies of createPolicy have no slash.
abbrev pub NamesFree : List PolicyCall → Type 0
NamesFree [] = Unit
NamesFree (creating (some body) ∷ cs) =
    (slash_free (trim_space body.policy.name) ≡ true) × NamesFree cs
NamesFree (creating none ∷ cs) = NamesFree cs
NamesFree (updating name body ∷ cs) = NamesFree cs
NamesFree (rolling_back name body order ∷ cs) = NamesFree cs

abbrev reversal_of :
    (name : Str) → PolicyRollbackRequest → List PolicyVersionRecord → List PolicyChange
reversal_of name body [] = []
reversal_of name body (x ∷ xs) =
    reversal name x.environment body.version body.actor body.reason ∷ []

-- The changes that a call makes: none or one.
abbrev changes_of : PolicyCall → PolicyVersioner → List PolicyChange
changes_of (creating none) pv = []
changes_of (creating (some body)) pv = creation body.policy body.actor body.reason ∷ []
changes_of (updating name none) pv = []
changes_of (updating name (some body)) pv =
    revision (record (body.policy) { name = name }) body.actor body.reason ∷ []
changes_of (rolling_back name none order) pv = []
changes_of (rolling_back name (some body) order) pv =
    reversal_of name body (history_for name order pv)

serve_policy-apply_changes :
    (save : Versions → Bool) (c : PolicyCall) (pv : PolicyVersioner)
    → serve_policy save c pv ≡ apply_changes save (changes_of c pv) pv
unfolding create_policy update_policy rollback_policy
serve_policy-apply_changes save (creating none) pv = refl
serve_policy-apply_changes save (creating (some body)) pv = refl
serve_policy-apply_changes save (updating name none) pv = refl
serve_policy-apply_changes save (updating name (some body)) pv = refl
serve_policy-apply_changes save (rolling_back name none order) pv = refl
serve_policy-apply_changes save (rolling_back name (some body) order) pv =
    split (history_for name order pv)
  where
    split :
        (found : List PolicyVersionRecord)
        → let after : PolicyVersioner × PolicyReply = elim found [
          | [] ↦ (pv, failed 404)
          | x ∷ xs ↦
              let (pv', error) =
                rollback save name x.environment body.version body.actor body.reason pv in
              (
                pv',
                elim error [
                  | some e ↦ failed (policy_status e)
                  | none ↦ rolled_back_to body.version
                ],
              )
        ] in
          after.0 ≡ apply_changes save (reversal_of name body found) pv
    split [] = refl
    split (x ∷ xs) = refl

changes_of-SlashFree :
    (c : PolicyCall) (cs : List PolicyCall) (pv : PolicyVersioner)
    → NamesFree (c ∷ cs)
    → AllSlashFree (changes_of c pv) × NamesFree cs
changes_of-SlashFree (creating none) cs pv h = (tt, h)
changes_of-SlashFree (creating (some body)) cs pv h = ((h.0, tt), h.1)
changes_of-SlashFree (updating name none) cs pv h = (tt, h)
changes_of-SlashFree (updating name (some body)) cs pv h = ((tt, tt), h)
changes_of-SlashFree (rolling_back name none order) cs pv h = (tt, h)
changes_of-SlashFree (rolling_back name (some body) order) cs pv h =
    (split (history_for name order pv), h)
  where
    split : (found : List PolicyVersionRecord) → AllSlashFree (reversal_of name body found)
    split [] = tt
    split (x ∷ xs) = (tt, tt)

serve_policies-IsNumbered :
    (save : Versions → Bool) (cs : List PolicyCall) (pv : PolicyVersioner)
    → NamesFree cs
    → IsNumbered pv
    → IsNumbered (serve_policies save cs pv)
serve_policies-IsNumbered save [] pv h n = n
serve_policies-IsNumbered save (c ∷ cs) pv h n =
    let (free, later) = changes_of-SlashFree c cs pv h in
    serve_policies-IsNumbered save cs (serve_policy save c pv) later (
      subst IsNumbered (sym (serve_policy-apply_changes save c pv))
        (apply_changes-IsNumbered save (changes_of c pv) pv free n))

-- After any calls of the API on policies, malformed or refused ones and rollbacks of whatever history Go
-- finds first among them, every history of an initially empty server is numbered 1, 2, 3 and so on, if
-- no name in a body of createPolicy has a slash.
serve_policies-Numbered :
    (save : Versions → Bool) (cs : List PolicyCall) (key : Str)
    → NamesFree cs
    → Numbered 1 (records_at key (serve_policies save cs fresh_versioner))
serve_policies-Numbered save cs key h =
    (serve_policies-IsNumbered save cs fresh_versioner h fresh_versioner-IsNumbered).numbered key
