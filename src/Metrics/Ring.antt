-- ===== src/Metrics/Ring.antt =====
-- One step of the ring of outcomes (pkg/runtime/metrics.go).
use native.Mathlib.Nat.{mod-eq_of_lt, mod_self}
use fgoths_framework.Prelude.{
  ℕ, zero, suc, ◌+◌, ◌-◌, ◌%◌, ◌≡◌, refl, sym, ap, ◌∙◌, subst, Bool, true, false, List, [], ◌∷◌,
  ◌++◌, arith, length, length-append, drop, ltb, if◌then◌else◌,
}
use fgoths_framework.Metrics.Window.{ErrorRing, read_slot, write_slot, slots, one_if, push_outcome}

-- The last `n` elements.
abbrev pub last_of_all : ℕ → List Bool → List Bool
last_of_all n xs = drop (length xs - n) xs

abbrev pub failures : List Bool → ℕ
failures [] = 0
failures (b ∷ bs) = one_if b + failures bs

failures-append : (xs ys : List Bool) → failures (xs ++ ys) ≡ failures xs + failures ys
failures-append [] ys = omega arith
failures-append (x ∷ xs) ys = omega (arith, failures-append xs ys)

-- The outcomes in the ring, oldest first: those before the head while it fills, and from then on
-- those from the head on and then those before it.
pub data Holds (cap : ℕ) (r : ErrorRing) : List Bool → Type 0 where
  filling :
      (xs ys : List Bool) (y : Bool)
      → slots cap r.buffer ≡ xs ++ y ∷ ys
      → r.head ≡ length xs
      → r.count ≡ length xs
      → Holds cap r xs
  full :
      (xs ys : List Bool) (y : Bool)
      → slots cap r.buffer ≡ xs ++ y ∷ ys
      → r.head ≡ length xs
      → r.count ≡ cap
      → Holds cap r (y ∷ ys ++ xs)

pub record IsRing (cap : ℕ) (r : ErrorRing) (recent : List Bool) : Type 0 where
  pub holds : Holds cap r recent
  pub size : length (slots cap r.buffer) ≡ cap
  pub errors : r.errors ≡ failures recent

-- The abstract window: one more outcome, and the oldest goes when it is full.
abbrev pub slide : ℕ → List Bool → Bool → List Bool
slide cap recent v = if ltb (length recent) cap then recent ++ v ∷ [] else drop 1 recent ++ v ∷ []

read-middle : (xs ys : List Bool) (y : Bool) → read_slot (xs ++ y ∷ ys) (length xs) ≡ y
unfolding read_slot
read-middle [] ys y = refl
read-middle (x ∷ xs) ys y = read-middle xs ys y

write-middle :
    (xs ys : List Bool) (y v : Bool) → write_slot (xs ++ y ∷ ys) (length xs) v ≡ xs ++ v ∷ ys
unfolding write_slot
write-middle [] ys y v = refl
write-middle (x ∷ xs) ys y v = ap (◌∷◌ x) (write-middle xs ys y v)

pub snoc-append : (xs ys : List Bool) (v : Bool) → xs ++ v ∷ ys ≡ (xs ++ v ∷ []) ++ ys
snoc-append [] ys v = refl
snoc-append (x ∷ xs) ys v = ap (◌∷◌ x) (snoc-append xs ys v)

pub append_nil : (xs : List Bool) → xs ++ [] ≡ xs
append_nil [] = refl
append_nil (x ∷ xs) = ap (◌∷◌ x) (append_nil xs)

append_assoc : (xs ys zs : List Bool) → (xs ++ ys) ++ zs ≡ xs ++ (ys ++ zs)
append_assoc [] ys zs = refl
append_assoc (x ∷ xs) ys zs = ap (◌∷◌ x) (append_assoc xs ys zs)

length-write_slot : (bs : List Bool) (i : ℕ) (v : Bool) → length (write_slot bs i v) ≡ length bs
unfolding write_slot
length-write_slot [] i v = refl
length-write_slot (b ∷ bs) zero v = refl
length-write_slot (b ∷ bs) (suc i) v = ap suc (length-write_slot bs i v)

module _ (cap : ℕ) (v : Bool) (r : ErrorRing) where
  pushed : ErrorRing
  pushed = push_outcome cap v r

  pushed_buffer : slots cap pushed.buffer ≡ write_slot (slots cap r.buffer) r.head v
  unfolding pushed push_outcome slots
  pushed_buffer = ground arith

  pushed_head : pushed.head ≡ (r.head + 1) % cap
  unfolding pushed push_outcome
  pushed_head = ground arith

  pushed_count : pushed.count ≡ (if ltb r.count cap then r.count + 1 else r.count)
  unfolding pushed push_outcome
  pushed_count = ground arith

  pushed_errors : pushed.errors ≡ (
      if ltb r.count cap
      then r.errors + one_if v
      else r.errors - one_if (read_slot (slots cap r.buffer) r.head) + one_if v)
  unfolding pushed push_outcome
  pushed_errors = ground arith

module _ (cap : ℕ) where
  -- A ring whose head is back at the start is full with its buffer.
  full_at_start :
      (r : ErrorRing) (xs : List Bool) (v : Bool)
      → slots cap r.buffer ≡ xs ++ v ∷ []
      → r.head ≡ 0
      → r.count ≡ cap
      → Holds cap r (xs ++ v ∷ [])
  full_at_start r [] v b h c = Holds.full [] [] v b h c
  full_at_start r (x ∷ xs) v b h c =
      subst (Holds cap r) (ap (◌∷◌ x) (append_nil (xs ++ v ∷ [])))
        (Holds.full [] (xs ++ v ∷ []) x b h c)

  fill_step :
      (v : Bool) (r : ErrorRing) (xs ys : List Bool) (y : Bool)
      → slots cap r.buffer ≡ xs ++ y ∷ ys
      → length (xs ++ y ∷ ys) ≡ cap
      → r.head ≡ length xs
      → r.count ≡ length xs
      → Holds cap (push_outcome cap v r) (xs ++ v ∷ [])
  unfolding pushed
  fill_step v r xs [] y b n h c =
      let size : cap ≡ suc (length xs) = omega (arith, length-append xs (y ∷ [])) in
      full_at_start (push_outcome cap v r) xs v
        (pushed_buffer cap v r
          ∙ ap (λ l. write_slot l r.head v) b
          ∙ ap (λ i. write_slot (xs ++ y ∷ []) i v) h
          ∙ write-middle xs [] y v)
        (pushed_head cap v r ∙ ap (λ i. i % cap) (omega arith) ∙ mod_self cap)
        (ground (arith, pushed_count cap v r))
  fill_step v r xs (z ∷ ys) y b n h c =
      let size : cap ≡ suc (suc (length xs + length ys)) =
        omega (arith, length-append xs (y ∷ z ∷ ys)) in
      let one_more : length (xs ++ v ∷ []) ≡ suc (length xs) =
        omega (arith, length-append xs (v ∷ [])) in
      Holds.filling (xs ++ v ∷ []) ys z
        (pushed_buffer cap v r
          ∙ ap (λ l. write_slot l r.head v) b
          ∙ ap (λ i. write_slot (xs ++ y ∷ z ∷ ys) i v) h
          ∙ write-middle xs (z ∷ ys) y v
          ∙ snoc-append xs (z ∷ ys) v)
        (pushed_head cap v r ∙ mod-eq_of_lt {n = r.head + 1} {m = cap} (omega arith) ∙ omega arith)
        (ground (arith, pushed_count cap v r))

  slide_step :
      (v : Bool) (r : ErrorRing) (xs ys : List Bool) (y : Bool)
      → slots cap r.buffer ≡ xs ++ y ∷ ys
      → length (xs ++ y ∷ ys) ≡ cap
      → r.head ≡ length xs
      → r.count ≡ cap
      → Holds cap (push_outcome cap v r) ((ys ++ xs) ++ v ∷ [])
  unfolding pushed
  slide_step v r xs [] y b n h c =
      let size : cap ≡ suc (length xs) = omega (arith, length-append xs (y ∷ [])) in
      full_at_start (push_outcome cap v r) xs v
        (pushed_buffer cap v r
          ∙ ap (λ l. write_slot l r.head v) b
          ∙ ap (λ i. write_slot (xs ++ y ∷ []) i v) h
          ∙ write-middle xs [] y v)
        (pushed_head cap v r ∙ ap (λ i. i % cap) (omega arith) ∙ mod_self cap)
        (ground (arith, pushed_count cap v r))
  slide_step v r xs (z ∷ ys) y b n h c =
      let size : cap ≡ suc (suc (length xs + length ys)) =
        omega (arith, length-append xs (y ∷ z ∷ ys)) in
      let one_more : length (xs ++ v ∷ []) ≡ suc (length xs) =
        omega (arith, length-append xs (v ∷ [])) in
      subst (Holds cap (push_outcome cap v r)) (ap (◌∷◌ z) (sym (append_assoc ys xs (v ∷ [])))) (
        Holds.full (xs ++ v ∷ []) ys z
          (pushed_buffer cap v r
            ∙ ap (λ l. write_slot l r.head v) b
            ∙ ap (λ i. write_slot (xs ++ y ∷ z ∷ ys) i v) h
            ∙ write-middle xs (z ∷ ys) y v
            ∙ snoc-append xs (z ∷ ys) v)
          (pushed_head cap v r
            ∙ mod-eq_of_lt {n = r.head + 1} {m = cap} (omega arith)
            ∙ omega arith)
          (ground (arith, pushed_count cap v r)))

  pub push_outcome-IsRing :
      (v : Bool) (r : ErrorRing) (recent : List Bool)
      → IsRing cap r recent
      → IsRing cap (push_outcome cap v r) (slide cap recent v)
  unfolding push_outcome pushed
  push_outcome-IsRing v r recent s = step recent s.holds s.size s.errors
    where
      step :
          (recent : List Bool)
          → Holds cap r recent
          → length (slots cap r.buffer) ≡ cap
          → r.errors ≡ failures recent
          → IsRing cap (push_outcome cap v r) (slide cap recent v)
      step xs (Holds.filling _ ys y b h c) size errors =
          let whole : length (xs ++ y ∷ ys) ≡ cap = sym (ap length b) ∙ size in
          let short : ltb (length xs) cap ≡ true = ground (arith, length-append xs (y ∷ ys)) in
          let slid : xs ++ v ∷ [] ≡ slide cap xs v = rw short refl in
          subst (IsRing cap (push_outcome cap v r)) slid (record {
            holds = fill_step v r xs ys y b whole h c;
            size =
                ap length (pushed_buffer cap v r)
                ∙ length-write_slot (slots cap r.buffer) r.head v
                ∙ size;
            errors = ground (arith, pushed_errors cap v r, failures-append xs (v ∷ []), short, c);
          })
      step _ (Holds.full xs ys y b h c) size errors =
          let whole : length (xs ++ y ∷ ys) ≡ cap = sym (ap length b) ∙ size in
          let long : ltb (length ((y ∷ ys) ++ xs)) cap ≡ false =
            ground (arith, length-append xs (y ∷ ys), length-append (y ∷ ys) xs) in
          let slid : (ys ++ xs) ++ v ∷ [] ≡ slide cap ((y ∷ ys) ++ xs) v = rw long refl in
          let evicted : read_slot (slots cap r.buffer) r.head ≡ y =
            ap (λ l. read_slot l r.head) b
            ∙ ap (read_slot (xs ++ y ∷ ys)) h
            ∙ read-middle xs ys y in
          let no_room : ltb r.count cap ≡ false = ground arith in
          subst (IsRing cap (push_outcome cap v r)) slid (record {
            holds = slide_step v r xs ys y b whole h c;
            size =
                ap length (pushed_buffer cap v r)
                ∙ length-write_slot (slots cap r.buffer) r.head v
                ∙ size;
            errors = ground (
              arith,
              pushed_errors cap v r,
              failures-append (ys ++ xs) (v ∷ []),
              no_room,
              evicted,
            );
          })

  abbrev pub push_all : ErrorRing → List Bool → ErrorRing
  push_all r [] = r
  push_all r (v ∷ vs) = push_all (push_outcome cap v r) vs
