-- ===== src/Tenancy/Entries.antt =====
-- The instants that the tenant quota keeps (pkg/runtime/tenant.go): filtering them, and deleting the
-- tenants whose last request is over.
use fgoths_framework.Prelude.{
  ℕ, ◌≤◌, ◌≡◌, refl, Bool, true, false, List, [], ◌∷◌, ◌++◌, none, some, arith, keep, All,
  if◌then◌else◌,
}
use fgoths_framework.Prelude.Text.{Str, str_eq_iff}
use fgoths_framework.Prelude.Maps.{Map, lookup, DistinctKeys}
use fgoths_framework.Tenancy.Middleware.{after_cutoff, last_after_cutoff, recent}

abbrev pub Rising : List ℕ → Type 0
Rising [] = Unit
Rising (t ∷ ts) = All (λ u. t ≤ u) ts × Rising ts

module _ {A : Type 0} where
  pub keep-append : (p : A → Bool) (xs ys : List A) → keep p (xs ++ ys) ≡ keep p xs ++ keep p ys
  keep-append p [] ys = refl
  keep-append p (x ∷ xs) ys = ground (arith, keep-append p xs ys)

  -- A test that implies another makes the other idle.
  keep-keep :
      (p q : A → Bool) (i : (x : A) → q x ≡ true → p x ≡ true) (xs : List A)
      → keep q (keep p xs) ≡ keep q xs
  keep-keep p q i [] = refl
  keep-keep p q i (x ∷ xs) = ground (arith, i x, keep-keep p q i xs)

  pub keep-All : (P : A → Type 0) (p : A → Bool) (xs : List A) → All P xs → All P (keep p xs)
  keep-All P p [] h = tt
  keep-All P p (x ∷ xs) h = ground (arith, keep-All P p xs h.1)

  pub append-All : (P : A → Type 0) (xs : List A) (y : A) → All P xs → P y → All P (xs ++ y ∷ [])
  append-All P [] y h e = (e, tt)
  append-All P (x ∷ xs) y h e = (h.0, append-All P xs y h.1 e)

  pub All-map : (P Q : A → Type 0) (f : (x : A) → P x → Q x) (xs : List A) → All P xs → All Q xs
  All-map P Q f [] h = tt
  All-map P Q f (x ∷ xs) h = (f x h.0, All-map P Q f xs h.1)

pub keep-Rising : (p : ℕ → Bool) (ts : List ℕ) → Rising ts → Rising (keep p ts)
keep-Rising p [] h = tt
keep-Rising p (t ∷ ts) h = ground (arith, keep-All (λ u. t ≤ u) p ts h.0, keep-Rising p ts h.1)

pub append-Rising :
    (ts : List ℕ) (now : ℕ) → Rising ts → All (λ t. t ≤ now) ts → Rising (ts ++ now ∷ [])
append-Rising [] now h u = (tt, tt)
append-Rising (t ∷ ts) now h u =
    (append-All (λ x. t ≤ x) ts now h.0 u.0, append-Rising ts now h.1 u.1)

pub recent-recent :
    (window now later : ℕ) (ts : List ℕ)
    → now ≤ later
    → recent window later (recent window now ts) ≡ recent window later ts
recent-recent window now later ts h =
    keep-keep (after_cutoff window now) (after_cutoff window later) (λ t e. ground arith) ts

-- With the last instant all are over.
pub recent-over :
    (window now : ℕ) (ts : List ℕ)
    → Rising ts
    → last_after_cutoff window now ts ≡ false
    → recent window now ts ≡ []
recent-over window now [] h e = refl
recent-over window now (t ∷ []) h e = ground arith
recent-over window now (t ∷ u ∷ ts) h e = ground (arith, recent-over window now (u ∷ ts) h.1 e)

-- Reading a map from which the entries that fail a test are deleted.
pub lookup-keep :
    (p : List ℕ → Bool) (k : Str) (m : Map (List ℕ))
    → DistinctKeys m
    → lookup k (keep (λ e. p e.1) m)
      ≡ elim (lookup k m) [ none ↦ none | some ts ↦ if p ts then some ts else none ]
unfolding lookup
lookup-keep p k [] h = refl
lookup-keep p k ((j, ts) ∷ m) h = ground (arith, lookup-keep p k m h.1, str_eq_iff j k)

pub keep-DistinctKeys :
    (p : List ℕ → Bool) (m : Map (List ℕ)) → DistinctKeys m → DistinctKeys (keep (λ e. p e.1) m)
keep-DistinctKeys p [] h = tt
keep-DistinctKeys p ((k, ts) ∷ m) h =
    ground (arith, lookup-keep p k m h.1, keep-DistinctKeys p m h.1)
