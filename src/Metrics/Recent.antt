-- ===== src/Metrics/Recent.antt =====
-- The ring of outcomes as the list of the last ones (pkg/runtime/metrics.go).
use fgoths_framework.Prelude.{
  ℕ, zero, suc, ◌-◌, ◌≤◌, ◌<◌, ◌≡◌, inl, inr, refl, sym, ap, ◌∙◌, subst, Bool, true, false, List,
  [], ◌∷◌, ◌++◌, arith, length, length-append, drop, ltb, if◌then◌else◌, Bool-cases, ◌==◌,
}
use fgoths_framework.Prelude.Int.{pos}
use fgoths_framework.Prelude.Float.{float}
use fgoths_framework.Metrics.Window.{
  ErrorRing, new_error_ring, make_buffer, slots, push_outcome, error_window,
}
use fgoths_framework.Metrics.Ring.{
  last_of_all, failures, Holds, IsRing, slide, snoc-append, append_nil, push_outcome-IsRing,
  push_all,
}

drop-append_short :
    (n : ℕ) (xs ys : List Bool) → n ≤ length xs → drop n (xs ++ ys) ≡ drop n xs ++ ys
drop-append_short zero xs ys h = refl
drop-append_short (suc n) [] ys h = absurd (omega arith)
drop-append_short (suc n) (x ∷ xs) ys h = drop-append_short n xs ys (omega arith)

drop-drop_one : (n : ℕ) (xs : List Bool) → drop 1 (drop n xs) ≡ drop (suc n) xs
drop-drop_one zero xs = refl
drop-drop_one (suc n) [] = refl
drop-drop_one (suc n) (x ∷ xs) = drop-drop_one n xs

length-drop : (n : ℕ) (xs : List Bool) → length (drop n xs) ≡ length xs - n
length-drop zero xs = omega arith
length-drop (suc n) [] = omega arith
length-drop (suc n) (x ∷ xs) = omega (arith, length-drop n xs)

slide-last_of_all :
    (cap : ℕ) (os : List Bool) (v : Bool)
    → 0 < cap
    → slide cap (last_of_all cap os) v ≡ last_of_all cap (os ++ v ∷ [])
slide-last_of_all cap os v p =
    let more = length-append os (v ∷ []) in
    let kept = length-drop (length os - cap) os in
    elim (Bool-cases (ltb (length os) cap)) [
      | inl room ↦
          let short : ltb (length (last_of_all cap os)) cap ≡ true = ground arith in
          let none_gone : length os - cap ≡ 0 = ground arith in
          let none_goes : length (os ++ v ∷ []) - cap ≡ 0 = ground arith in
          rw short (
            ap (λ n. drop n os ++ v ∷ []) none_gone
            ∙ ap (λ n. drop n (os ++ v ∷ [])) (sym none_goes))
      | inr no_room ↦
          let long : ltb (length (last_of_all cap os)) cap ≡ false = ground arith in
          let one_goes : length (os ++ v ∷ []) - cap ≡ suc (length os - cap) = ground arith in
          rw long (
            ap (λ l. l ++ v ∷ []) (drop-drop_one (length os - cap) os)
            ∙ sym (drop-append_short (suc (length os - cap)) os (v ∷ []) (ground arith))
            ∙ ap (λ n. drop n (os ++ v ∷ [])) (sym one_goes))
    ]

push_all-IsRing :
    (cap : ℕ) (before os : List Bool) (r : ErrorRing)
    → 0 < cap
    → IsRing cap r (last_of_all cap before)
    → IsRing cap (push_all cap r os) (last_of_all cap (before ++ os))
push_all-IsRing cap before [] r p s =
    subst (λ l. IsRing cap r (last_of_all cap l)) (sym (append_nil before)) s
push_all-IsRing cap before (v ∷ os) r p s =
    subst (λ l. IsRing cap (push_all cap (push_outcome cap v r) os) (last_of_all cap l))
      (sym (snoc-append before os v))
      (push_all-IsRing cap (before ++ v ∷ []) os (push_outcome cap v r) p (
        subst (IsRing cap (push_outcome cap v r)) (slide-last_of_all cap before v p)
          (push_outcome-IsRing cap v r (last_of_all cap before) s)))

length-make_buffer : (n : ℕ) → length (make_buffer n) ≡ n
unfolding make_buffer
length-make_buffer zero = refl
length-make_buffer (suc n) = ap suc (length-make_buffer n)

new_error_ring-IsRing : (cap : ℕ) → 0 < cap → IsRing cap new_error_ring []
unfolding slots make_buffer
new_error_ring-IsRing zero p = absurd (omega arith)
new_error_ring-IsRing (suc n) p = record {
  holds = Holds.filling [] (make_buffer n) false refl refl refl;
  size = length-make_buffer (suc n);
  errors = refl;
}

-- A ring of positive capacity holds after any outcomes the last of them, as many as it has room for,
-- in their order, and counts the failures among them.
pub push_all-Refines :
    (cap : ℕ) (os : List Bool)
    → 0 < cap
    → IsRing cap (push_all cap new_error_ring os) (last_of_all cap os)
push_all-Refines cap os p =
    push_all-IsRing cap [] os new_error_ring p
      (subst (IsRing cap new_error_ring) none_yet (new_error_ring-IsRing cap p))
  where
    drop_nil : (n : ℕ) → [] ≡ drop {A = Bool} n []
    drop_nil zero = refl
    drop_nil (suc n) = refl

    none_yet : [] ≡ last_of_all cap []
    none_yet = drop_nil (0 - cap)

length-Holds :
    (cap : ℕ) (r : ErrorRing) (recent : List Bool)
    → Holds cap r recent
    → length (slots cap r.buffer) ≡ cap
    → (r.count ≡ length recent) × (length recent ≤ cap)
length-Holds cap r _ (Holds.filling xs ys y b h c) n =
    let whole : length (xs ++ y ∷ ys) ≡ cap = sym (ap length b) ∙ n in
    (c, omega (arith, length-append xs (y ∷ ys)))
length-Holds cap r _ (Holds.full xs ys y b h c) n =
    let whole : length (xs ++ y ∷ ys) ≡ cap = sym (ap length b) ∙ n in
    let same : length ((y ∷ ys) ++ xs) ≡ cap =
      omega (arith, length-append xs (y ∷ ys), length-append ys xs) in
    (c ∙ sym same, omega arith)

-- The requests that ErrorWindow reports of the last outcomes.
abbrev pub reported : ℕ → List Bool → ℕ
reported size recent = if ltb size (length recent) then size else length recent

-- ErrorWindow reports of the last outcomes their number, or `size` if that is smaller, and a rate: the
-- failures among all of them, also if `size` is smaller, divided by that number; it reports 0 for no
-- requests.
pub error_window-recent :
    (cap : ℕ) (os : List Bool) (size : ℕ)
    → 0 < cap
    → let recent = last_of_all cap os in
      error_window (push_all cap new_error_ring os) (pos size) ≡ (
        if reported size recent == 0
        then (0, float 0 1)
        else (reported size recent, float (failures recent) (reported size recent)))
unfolding error_window
error_window-recent cap os size p =
    let s = push_all-Refines cap os p in
    let (count, small) =
      length-Holds cap (push_all cap new_error_ring os) (last_of_all cap os) s.holds s.size in
    answer (push_all cap new_error_ring os) (last_of_all cap os) count s.errors
  where
    answer :
        (r : ErrorRing) (recent : List Bool)
        → r.count ≡ length recent
        → r.errors ≡ failures recent
        → error_window r (pos size) ≡ (
            if reported size recent == 0
            then (0, float 0 1)
            else (reported size recent, float (failures recent) (reported size recent)))
    answer r recent count errors = ground arith
