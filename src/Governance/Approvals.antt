-- ===== src/Governance/Approvals.antt =====
-- Who approved a gate: Approve and IsApproved of pkg/runtime/governance.go.
use mathlib.Core.List.{Memᴰ}
use fgoths_framework.Prelude.{
  ◌≡◌, ◌≢◌, ◌↔◌, ◌⊎◌, inl, inr, refl, sym, ap, subst, ◌∙◌, true, List, [], ◌∷◌, ◌++◌, arith, any,
  is_empty, Bool-cases,
}
use fgoths_framework.Prelude.Int.{ℤ, pos, ◌≤ℤ◌}
use fgoths_framework.Prelude.Text.{Str, str_eq, str_eq_iff}
use fgoths_framework.Governance.Gate.{ApprovalGate, new_approval_gate, approve}

-- Approvals are asked for, one after the other.
abbrev pub approve_all : ApprovalGate → List Str → ApprovalGate
approve_all g [] = g
approve_all g (a ∷ actors) = approve_all (approve g a).0 actors

-- No element stands twice.
abbrev pub Distinct : List Str → Type 0
Distinct [] = Unit
Distinct (a ∷ xs) = (¬ Memᴰ a xs) × Distinct xs

mem-any : (xs : List Str) (b : Str) → any (λ a. str_eq a b) xs ≡ true → Memᴰ b xs
mem-any [] b e = absurd (ground arith)
mem-any (x ∷ xs) b e = elim (Bool-cases (str_eq x b)) [
  | inl same ↦ Memᴰ.head (sym ((str_eq_iff x b).0 same))
  | inr other ↦ Memᴰ.tail (mem-any xs b (ground arith))
]

any-mem : (xs : List Str) (b : Str) → Memᴰ b xs → any (λ a. str_eq a b) xs ≡ true
any-mem [] b m = elim m [ ]
any-mem (x ∷ xs) b (Memᴰ.head e) = ground (arith, str_eq_iff x b, e)
any-mem (x ∷ xs) b (Memᴰ.tail t) = ground (arith, any-mem xs b t)

mem-snoc : (xs : List Str) (a b : Str) → Memᴰ b (xs ++ a ∷ []) → Memᴰ b xs ⊎ (b ≡ a)
mem-snoc [] a b (Memᴰ.head e) = inr e
mem-snoc [] a b (Memᴰ.tail t) = elim t [ ]
mem-snoc (x ∷ xs) a b (Memᴰ.head e) = inl (Memᴰ.head e)
mem-snoc (x ∷ xs) a b (Memᴰ.tail t) = elim (mem-snoc xs a b t) [
  | inl m ↦ inl (Memᴰ.tail m)
  | inr e ↦ inr e
]

snoc-mem : (xs : List Str) (a : Str) → Memᴰ a (xs ++ a ∷ [])
snoc-mem [] a = Memᴰ.head refl
snoc-mem (x ∷ xs) a = Memᴰ.tail (snoc-mem xs a)

snoc-mem_left : (xs : List Str) (a b : Str) → Memᴰ b xs → Memᴰ b (xs ++ a ∷ [])
snoc-mem_left [] a b m = elim m [ ]
snoc-mem_left (x ∷ xs) a b (Memᴰ.head e) = Memᴰ.head e
snoc-mem_left (x ∷ xs) a b (Memᴰ.tail t) = Memᴰ.tail (snoc-mem_left xs a b t)

pub Distinct-snoc : (xs : List Str) (a : Str) → Distinct xs → ¬ Memᴰ a xs → Distinct (xs ++ a ∷ [])
Distinct-snoc [] a d fresh = ((λ m. elim m [ ]), tt)
Distinct-snoc (x ∷ xs) a d fresh = (
  (λ m. elim (mem-snoc xs a x m) [ inl there ↦ d.0 there | inr e ↦ fresh (Memᴰ.head (sym e)) ]),
  Distinct-snoc xs a d.1 (λ t. fresh (Memᴰ.tail t)),
)

-- The approvals of a gate that was asked by these actors.
pub record IsGate (actors : List Str) (g : ApprovalGate) : Type 0 where
  pub distinct : Distinct g.approvals
  pub asked : (a : Str) → Memᴰ a g.approvals ↔ (Memᴰ a actors × (a ≢ []))
  pub needs : pos 1 ≤ℤ g.required

approve-IsGate :
    (actors : List Str) (g : ApprovalGate) (a : Str)
    → IsGate actors g
    → IsGate (actors ++ a ∷ []) (approve g a).0
unfolding approve
approve-IsGate actors g a s = elim (Bool-cases (is_empty a)) [
  | inl blank ↦
      let empty : a ≡ [] = ground arith in
      rw (blank, approve)
        (record {
          distinct = s.distinct;
          asked = λ b. (
            (λ m. let (there, full) = (s.asked b).0 m in (snoc-mem_left actors a b there, full)),
            λ m. elim (mem-snoc actors a b m.0) [
              | inl there ↦ (s.asked b).1 (there, m.1)
              | inr e ↦ absurd (m.1 (e ∙ empty))
            ],
          );
          needs = s.needs;
        })
  | inr full ↦ elim (Bool-cases (any (λ b. str_eq b a) g.approvals)) [
    | inl known ↦
        let member = mem-any g.approvals a known in
        rw (full, approve, known)
          (record {
            distinct = s.distinct;
            asked = λ b. (
              (λ m.
                  let (there, filled) = (s.asked b).0 m in
                  (snoc-mem_left actors a b there, filled)),
              λ m. elim (mem-snoc actors a b m.0) [
                | inl there ↦ (s.asked b).1 (there, m.1)
                | inr e ↦ subst (λ x. Memᴰ x g.approvals) (sym e) member
              ],
            );
            needs = s.needs;
          })
    | inr fresh ↦
        let unknown : ¬ Memᴰ a g.approvals = λ m. ground (arith, any-mem g.approvals a m) in
        let filled : a ≢ [] = λ e. ground arith in
        rw (full, approve, fresh)
          (record {
            distinct = Distinct-snoc g.approvals a s.distinct unknown;
            asked = λ b. (
              (λ m. elim (mem-snoc g.approvals a b m) [
                | inl there ↦ let (k, f) = (s.asked b).0 there in (snoc-mem_left actors a b k, f)
                | inr e ↦ (
                  subst (λ x. Memᴰ x (actors ++ a ∷ [])) (sym e) (snoc-mem actors a),
                  λ q. filled (sym e ∙ q),
                )
              ]),
              λ m. elim (mem-snoc actors a b m.0) [
                | inl there ↦ snoc-mem_left g.approvals a b ((s.asked b).1 (there, m.1))
                | inr e ↦
                    subst (λ x. Memᴰ x (g.approvals ++ a ∷ [])) (sym e) (snoc-mem g.approvals a)
              ],
            );
            needs = s.needs;
          })
  ]
]

append_assoc_one : (xs : List Str) (a : Str) (ys : List Str) → (xs ++ a ∷ []) ++ ys ≡ xs ++ a ∷ ys
append_assoc_one [] a ys = refl
append_assoc_one (x ∷ xs) a ys = ap (◌∷◌ x) (append_assoc_one xs a ys)

append_nil : (xs : List Str) → xs ++ [] ≡ xs
append_nil [] = refl
append_nil (x ∷ xs) = ap (◌∷◌ x) (append_nil xs)

approve_all-from :
    (before actors : List Str) (g : ApprovalGate)
    → IsGate before g
    → IsGate (before ++ actors) (approve_all g actors)
approve_all-from before [] g s = subst (λ xs. IsGate xs g) (sym (append_nil before)) s
approve_all-from before (a ∷ actors) g s =
    subst (λ xs. IsGate xs (approve_all (approve g a).0 actors)) (append_assoc_one before a actors)
      (approve_all-from (before ++ a ∷ []) actors (approve g a).0 (approve-IsGate before g a s))

new_approval_gate-IsGate : (name : Str) (required : ℤ) → IsGate [] (new_approval_gate name required)
unfolding new_approval_gate
new_approval_gate-IsGate name required = record {
  distinct = tt;
  asked = λ b. ((λ m. elim m [ ]), λ m. elim m.0 [ ]);
  needs = ground arith;
}

-- A new gate, after any calls of Approve, holds each actor that was given and is not empty once and
-- nobody else, and it needs at least one of them.
pub approve_all-IsGate :
    (name : Str) (required : ℤ) (actors : List Str)
    → IsGate actors (approve_all (new_approval_gate name required) actors)
approve_all-IsGate name required actors =
    approve_all-from [] actors (new_approval_gate name required)
      (new_approval_gate-IsGate name required)
