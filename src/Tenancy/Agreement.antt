-- ===== src/Tenancy/Agreement.antt =====
-- What the quota store counts, and what the log of admitted requests counts (pkg/runtime/tenant.go).
use fgoths_framework.Prelude.{
  ℕ, ◌+◌, ◌%◌, ◌^◌, ◌≤◌, ◌≡◌, refl, Bool, true, false, not, List, [], ◌∷◌, ◌++◌, arith, All, length,
  ltb, leb, ◌==◌, if◌then◌else◌, ap, subst, ◌∙◌,
}
use mathlib.Core.List.{append-nil}
use fgoths_framework.Prelude.Text.{Str, str_eq, str_eq_iff}
use fgoths_framework.Prelude.Maps.{
  Map, lookup, insert, lookup-insert, insert-insert, DistinctKeys, insert-DistinctKeys,
}
use fgoths_framework.Tenancy.Middleware.{
  QuotaStore, after_cutoff, last_after_cutoff, sweep, or_nil, recent, count_request,
}
use fgoths_framework.Tenancy.Entries.{
  Rising, keep-append, keep-All, append-All, All-map, keep-Rising, append-Rising, recent-recent,
  recent-over, lookup-keep, keep-DistinctKeys,
}

-- Admitted requests, the oldest first.
abbrev pub Log : Type 0
Log = List (Str × ℕ)

abbrev pub times_of : Str → Log → List ℕ
times_of k [] = []
times_of k ((j, t) ∷ log) = let rest = times_of k log in if str_eq j k then t ∷ rest else rest

pub times_of-append :
    (k j : Str) (t : ℕ) (log : Log)
    → times_of k (log ++ (j, t) ∷ []) ≡ times_of k log ++ (if str_eq j k then t ∷ [] else [])
times_of-append k j t [] = ground arith
times_of-append k j t ((i, u) ∷ log) = ground (arith, times_of-append k j t log)

abbrev pub stored : Str → Map (List ℕ) → List ℕ
stored k m = or_nil (lookup k m)

-- At `now` and later the map counts what the log counts.
pub record Agrees (window now : ℕ) (m : Map (List ℕ)) (log : Log) : Type 0 where
  pub keys : DistinctKeys m
  pub rising : (k : Str) → Rising (stored k m)
  pub past : (k : Str) → All (λ t. t ≤ now) (stored k m)
  pub same :
      (k : Str) (later : ℕ)
      → now ≤ later
      → recent window later (stored k m) ≡ recent window later (times_of k log)

pub Agrees-later :
    (window now later : ℕ) (m : Map (List ℕ)) (log : Log)
    → now ≤ later
    → Agrees window now m log
    → Agrees window later m log
Agrees-later window now later m log h a = record {
  keys = a.keys;
  rising = a.rising;
  past = λ k. All-map (λ t. t ≤ now) (λ t. t ≤ later) (λ t e. omega arith) (stored k m) (a.past k);
  same = λ k at e. a.same k at (omega arith);
}

stored-sweep :
    (window now : ℕ) (k : Str) (m : Map (List ℕ))
    → DistinctKeys m
    → stored k (sweep window now m)
      ≡ (if last_after_cutoff window now (stored k m) then stored k m else [])
stored-sweep window now k m h = ground (arith, lookup-keep (last_after_cutoff window now) k m h)

sweep-Agrees :
    (window now : ℕ) (m : Map (List ℕ)) (log : Log)
    → Agrees window now m log
    → Agrees window now (sweep window now m) log
sweep-Agrees window now m log a = record {
  keys = keep-DistinctKeys (last_after_cutoff window now) m a.keys;
  rising = λ k. ground (arith, stored-sweep window now k m a.keys, a.rising k);
  past = λ k. ground (arith, stored-sweep window now k m a.keys, a.past k);
  same = λ k later e. ground (
    arith,
    stored-sweep window now k m a.keys,
    a.same k later e,
    recent-over window now (stored k m) (a.rising k),
    recent-recent window now later (stored k m) e,
  );
}

stored-insert :
    (k j : Str) (ts : List ℕ) (m : Map (List ℕ))
    → stored j (insert k ts m) ≡ (if str_eq k j then ts else stored j m)
stored-insert k j ts m = ground (arith, lookup-insert k j ts m)

filter-Agrees :
    (window now : ℕ) (k : Str) (m : Map (List ℕ)) (log : Log)
    → Agrees window now m log
    → Agrees window now (insert k (recent window now (stored k m)) m) log
filter-Agrees window now k m log a = record {
  keys = insert-DistinctKeys k (recent window now (stored k m)) m a.keys;
  rising = λ j. ground (
    arith,
    stored-insert k j (recent window now (stored k m)) m,
    keep-Rising (after_cutoff window now) (stored k m) (a.rising k),
    a.rising j,
  );
  past = λ j. ground (
    arith,
    stored-insert k j (recent window now (stored k m)) m,
    keep-All (λ t. t ≤ now) (after_cutoff window now) (stored k m) (a.past k),
    a.past j,
  );
  same = λ j later e. ground (
    arith,
    stored-insert k j (recent window now (stored k m)) m,
    str_eq_iff k j,
    recent-recent window now later (stored k m) e,
    a.same j later e,
  );
}

-- Appending the instant to what the map has for the tenant is appending the request to the log.
admit-Agrees :
    (window now : ℕ) (k : Str) (m : Map (List ℕ)) (log : Log)
    → Agrees window now m log
    → Agrees window now (insert k (stored k m ++ now ∷ []) m) (log ++ (k, now) ∷ [])
admit-Agrees window now k m log a = record {
  keys = insert-DistinctKeys k (stored k m ++ now ∷ []) m a.keys;
  rising = λ j. ground (
    arith,
    stored-insert k j (stored k m ++ now ∷ []) m,
    append-Rising (stored k m) now (a.rising k) (a.past k),
    a.rising j,
  );
  past = λ j. ground (
    arith,
    stored-insert k j (stored k m ++ now ∷ []) m,
    append-All (λ t. t ≤ now) (stored k m) now (a.past k) (omega arith),
    a.past j,
  );
  same = λ j later e. ground (
    arith,
    stored-insert k j (stored k m ++ now ∷ []) m,
    str_eq_iff k j,
    times_of-append j k now log,
    keep-append (after_cutoff window later) (stored k m) (now ∷ []),
    keep-append (after_cutoff window later) (times_of j log) (now ∷ []),
    append-nil (times_of j log),
    a.same j later e,
  );
}

-- What the log admits.
abbrev pub has_room : (limit window : ℕ) (k : Str) (now : ℕ) → Log → Bool
has_room limit window k now log = ltb (length (recent window now (times_of k log))) limit

admitted_map :
    (window now : ℕ) (k : Str) (m : Map (List ℕ)) (log : Log)
    → Agrees window now m log
    → Agrees window now
        (insert k (recent window now (stored k m) ++ now ∷ []) m)
        (log ++ (k, now) ∷ [])
admitted_map window now k m log a =
    let ts = recent window now (stored k m) in
    let m' = insert k ts m in
    let kept : stored k m' ≡ ts = ground (arith, stored-insert k k ts m, str_eq_iff k k) in
    let once : insert k (stored k m' ++ now ∷ []) m' ≡ insert k (ts ++ now ∷ []) m =
      ap (λ us. insert k (us ++ now ∷ []) m') kept ∙ insert-insert k ts (ts ++ now ∷ []) m in
    subst (λ x. Agrees window now x (log ++ (k, now) ∷ [])) once
      (admit-Agrees window now k m' log (filter-Agrees window now k m log a))

abbrev swept : Bool → (window now : ℕ) → Map (List ℕ) → Map (List ℕ)
swept b window now m = if b then sweep window now m else m

swept-Agrees :
    (b : Bool) (window now : ℕ) (m : Map (List ℕ)) (log : Log)
    → Agrees window now m log
    → Agrees window now (swept b window now m) log
swept-Agrees true window now m log a = sweep-Agrees window now m log a
swept-Agrees false window now m log a = a

abbrev pub log_after : Bool → Str → ℕ → Log → Log
log_after b k now log = if b then log ++ (k, now) ∷ [] else log

pub count_request-Agrees :
    (limit window now : ℕ) (k : Str) (s : QuotaStore) (log : Log)
    → Agrees window now s.by_user log
    → let after = count_request limit window k now s in
      (after.1 ≡ has_room limit window k now log)
      × Agrees window now after.0.by_user (log_after (has_room limit window k now log) k now log)
unfolding count_request
count_request-Agrees limit window now k s log a =
    let m = swept ((s.requests + 1) % 2 ^ 64 % 256 == 0) window now s.by_user in
    let b = swept-Agrees ((s.requests + 1) % 2 ^ 64 % 256 == 0) window now s.by_user log a in
    let counts = b.same k now (omega arith) in
    result m b (leb limit (length (recent window now (stored k m))))
      (has_room limit window k now log) (ground (arith, counts))
  where
    result :
        (m : Map (List ℕ))
        → Agrees window now m log
        → (closed room : Bool) → room ≡ not closed
        → let ts = recent window now (stored k m) in
          let after : QuotaStore × Bool =
            if closed
            then (record { by_user = insert k ts m; requests = (s.requests + 1) % 2 ^ 64 }, false)
            else (
              record {
                by_user = insert k (ts ++ now ∷ []) m;
                requests = (s.requests + 1) % 2 ^ 64;
              },
              true,
            ) in
          (after.1 ≡ room) × Agrees window now after.0.by_user (log_after room k now log)
    result m b true false e = (refl, filter-Agrees window now k m log b)
    result m b false true e = (refl, admitted_map window now k m log b)
    result m b true true e = cc
    result m b false false e = cc
