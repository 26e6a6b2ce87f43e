-- ===== src/Governance/Gate.antt =====
-- ApprovalGate of pkg/runtime/governance.go.
use fgoths_framework.Prelude.{
  Bool, true, false, List, [], ◌∷◌, ◌++◌, any, is_empty, length, if◌then◌else◌,
}
use fgoths_framework.Prelude.Int.{ℤ, pos, leb_ℤ}
use fgoths_framework.Prelude.Text.{Str, str_eq}

pub record ApprovalGate : Type 0 where
  pub name : Str
  pub required : ℤ
  pub approvals : List Str

unfoldable pub new_approval_gate : Str → ℤ → ApprovalGate
new_approval_gate name required = record {
  name = name;
  required = if leb_ℤ required (pos 0) then pos 1 else required;
  approvals = [];
}

-- The Boolean tells that there was no error.
unfoldable pub approve : ApprovalGate → Str → ApprovalGate × Bool
approve g actor =
    if is_empty actor
    then (g, false)
    else if any (λ a. str_eq a actor) g.approvals
    then (g, true)
    else (record g { approvals = g.approvals ++ actor ∷ [] }, true)

unfoldable pub is_approved : ApprovalGate → Bool
is_approved g = leb_ℤ g.required (pos (length g.approvals))
