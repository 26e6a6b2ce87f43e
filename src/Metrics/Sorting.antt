-- ===== src/Metrics/Sorting.antt =====
-- The sorted copy that sort.Slice makes of the samples (pkg/runtime/metrics.go). Numbers have one
-- sorted order, so the algorithm does not matter.
use mathlib.Core.List.{Memᴰ}
use fgoths_framework.Prelude.{
  ℕ, zero, suc, ◌+◌, ◌≤◌, ◌<◌, ◌≡◌, inl, inr, refl, subst, List, [], ◌∷◌, arith, leb, length, All,
  if◌then◌else◌, Bool-cases, ap, ◌∙◌,
}

unfoldable pub insert_sorted : ℕ → List ℕ → List ℕ
insert_sorted x [] = x ∷ []
insert_sorted x (y ∷ ys) = if leb x y then x ∷ y ∷ ys else y ∷ insert_sorted x ys

unfoldable pub sort : List ℕ → List ℕ
unfolding insert_sorted
sort [] = []
sort (x ∷ xs) = insert_sorted x (sort xs)

-- The element at an index, or 0 where Go panics.
unfoldable pub get_or_zero : List ℕ → ℕ → ℕ
get_or_zero [] i = 0
get_or_zero (x ∷ xs) zero = x
get_or_zero (x ∷ xs) (suc i) = get_or_zero xs i

abbrev pub Sorted : List ℕ → Type 0
Sorted [] = Unit
Sorted (x ∷ xs) = All (λ y. x ≤ y) xs × Sorted xs

All-weaken : (a b : ℕ) (xs : List ℕ) → a ≤ b → All (λ y. b ≤ y) xs → All (λ y. a ≤ y) xs
All-weaken a b [] h p = tt
All-weaken a b (x ∷ xs) h p = (omega (arith, p.0), All-weaken a b xs h p.1)

All-insert_sorted :
    (a x : ℕ) (xs : List ℕ) → a ≤ x → All (λ y. a ≤ y) xs → All (λ y. a ≤ y) (insert_sorted x xs)
unfolding insert_sorted
All-insert_sorted a x [] h p = (h, tt)
All-insert_sorted a x (y ∷ ys) h p = ground (arith, All-insert_sorted a x ys h p.1)

insert_sorted-Sorted : (x : ℕ) (xs : List ℕ) → Sorted xs → Sorted (insert_sorted x xs)
unfolding insert_sorted
insert_sorted-Sorted x [] s = (tt, tt)
insert_sorted-Sorted x (y ∷ ys) s = elim (Bool-cases (leb x y)) [
  | inl small ↦ rw (small, insert_sorted) ((ground arith, All-weaken x y ys (ground arith) s.0), s)
  | inr large ↦
      rw (large, insert_sorted)
        (All-insert_sorted y x ys (ground arith) s.0, insert_sorted-Sorted x ys s.1)
]

pub sort-Sorted : (xs : List ℕ) → Sorted (sort xs)
unfolding sort
sort-Sorted [] = tt
sort-Sorted (x ∷ xs) = insert_sorted-Sorted x (sort xs) (sort-Sorted xs)

length-insert_sorted : (x : ℕ) (xs : List ℕ) → length (insert_sorted x xs) ≡ suc (length xs)
unfolding insert_sorted
length-insert_sorted x [] = refl
length-insert_sorted x (y ∷ ys) = ground (arith, length-insert_sorted x ys)

pub length-sort : (xs : List ℕ) → length (sort xs) ≡ length xs
unfolding sort
length-sort [] = refl
length-sort (x ∷ xs) = length-insert_sorted x (sort xs) ∙ ap suc (length-sort xs)

-- How many samples are at most `v`.
abbrev pub at_most : ℕ → List ℕ → ℕ
at_most v [] = 0
at_most v (x ∷ xs) = (if leb x v then 1 else 0) + at_most v xs

at_most-insert_sorted :
    (v x : ℕ) (xs : List ℕ) → at_most v (insert_sorted x xs) ≡ at_most v (x ∷ xs)
unfolding insert_sorted
at_most-insert_sorted v x [] = refl
at_most-insert_sorted v x (y ∷ ys) = ground (arith, at_most-insert_sorted v x ys)

pub at_most-sort : (v : ℕ) (xs : List ℕ) → at_most v (sort xs) ≡ at_most v xs
unfolding sort
at_most-sort v [] = refl
at_most-sort v (x ∷ xs) = ground (arith, at_most-insert_sorted v x (sort xs), at_most-sort v xs)

mem-insert_sorted : (x v : ℕ) (xs : List ℕ) → Memᴰ v (insert_sorted x xs) → Memᴰ v (x ∷ xs)
unfolding insert_sorted
mem-insert_sorted x v [] m = m
mem-insert_sorted x v (y ∷ ys) m = elim (Bool-cases (leb x y)) [
  | inl small ↦ subst (Memᴰ v) (rw (small, insert_sorted)) m
  | inr large ↦ move (subst (Memᴰ v) (rw (large, insert_sorted)) m) (mem-insert_sorted x v ys)
]
  where
    move :
        Memᴰ v (y ∷ insert_sorted x ys)
        → (Memᴰ v (insert_sorted x ys) → Memᴰ v (x ∷ ys))
        → Memᴰ v (x ∷ y ∷ ys)
    move (Memᴰ.head e) ih = Memᴰ.tail (Memᴰ.head e)
    move (Memᴰ.tail t) ih = swap (ih t)
      where
        swap : Memᴰ v (x ∷ ys) → Memᴰ v (x ∷ y ∷ ys)
        swap (Memᴰ.head e) = Memᴰ.head e
        swap (Memᴰ.tail t) = Memᴰ.tail (Memᴰ.tail t)

pub mem-sort : (v : ℕ) (xs : List ℕ) → Memᴰ v (sort xs) → Memᴰ v xs
unfolding sort
mem-sort v [] m = m
mem-sort v (x ∷ xs) m = back (mem-insert_sorted x v (sort xs) m) (mem-sort v xs)
  where
    back : Memᴰ v (x ∷ sort xs) → (Memᴰ v (sort xs) → Memᴰ v xs) → Memᴰ v (x ∷ xs)
    back (Memᴰ.head e) ih = Memᴰ.head e
    back (Memᴰ.tail t) ih = Memᴰ.tail (ih t)

pub mem-get_or_zero : (xs : List ℕ) (i : ℕ) → i < length xs → Memᴰ (get_or_zero xs i) xs
unfolding get_or_zero
mem-get_or_zero [] i h = absurd (omega arith)
mem-get_or_zero (x ∷ xs) zero h = Memᴰ.head refl
mem-get_or_zero (x ∷ xs) (suc i) h = Memᴰ.tail (mem-get_or_zero xs i (omega arith))

All-get_or_zero :
    (a : ℕ) (xs : List ℕ) (i : ℕ) → i < length xs → All (λ y. a ≤ y) xs → a ≤ get_or_zero xs i
unfolding get_or_zero
All-get_or_zero a [] i h p = absurd (omega arith)
All-get_or_zero a (x ∷ xs) zero h p = p.0
All-get_or_zero a (x ∷ xs) (suc i) h p = All-get_or_zero a xs i (omega arith) p.1

-- In a sorted list the elements rise with their indices.
pub get_or_zero-le :
    (xs : List ℕ) (i j : ℕ)
    → Sorted xs
    → i ≤ j
    → j < length xs
    → get_or_zero xs i ≤ get_or_zero xs j
unfolding get_or_zero
get_or_zero-le [] i j s h k = absurd (omega arith)
get_or_zero-le (x ∷ xs) zero zero s h k = omega arith
get_or_zero-le (x ∷ xs) zero (suc j) s h k = All-get_or_zero x xs j (omega arith) s.0
get_or_zero-le (x ∷ xs) (suc i) zero s h k = absurd (omega arith)
get_or_zero-le (x ∷ xs) (suc i) (suc j) s h k =
    get_or_zero-le xs i j s.1 (omega arith) (omega arith)

-- More than `i` elements of a sorted list are at most the one at index `i`.
pub at_most-get_or_zero :
    (xs : List ℕ) (i : ℕ) → Sorted xs → i < length xs → i < at_most (get_or_zero xs i) xs
unfolding get_or_zero
at_most-get_or_zero [] i s h = absurd (omega arith)
at_most-get_or_zero (x ∷ xs) zero s h = ground arith
at_most-get_or_zero (x ∷ xs) (suc i) s h =
    let low = All-get_or_zero x xs i (omega arith) s.0 in
    ground (arith, at_most-get_or_zero xs i s.1 (omega arith))
