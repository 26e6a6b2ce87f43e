-- ===== src/Metrics/Percentiles.antt =====
-- What a histogram answers after any calls (pkg/runtime/metrics.go).
use mathlib.Core.List.{Memᴰ}
use fgoths_framework.Prelude.{
  ℕ, zero, suc, ◌*◌, ◌/◌, ◌≤◌, ◌<◌, ◌≡◌, refl, sym, ap, subst, Bool, true, false, List, [], ◌∷◌,
  ◌++◌, arith, is_empty, length, length-append, drop, if◌then◌else◌,
}
use fgoths_framework.Prelude.Int.{ℤ, pos_part}
use fgoths_framework.Metrics.Sorting.{
  sort, get_or_zero, sort-Sorted, length-sort, at_most, at_most-sort, mem-sort, mem-get_or_zero,
  get_or_zero-le, at_most-get_or_zero,
}
use fgoths_framework.Metrics.Histogram.{
  DurationPercentiles, RouteHistogram, no_percentiles, new_route_histogram, cut, record_sample,
  percentiles, recompute, snapshot,
}

-- `v` is one of the samples, and more than `share` of a hundred of them are at most `v`.
pub record IsPercentile (share : ℕ) (samples : List ℕ) (v : ℕ) : Type 0 where
  pub member : Memᴰ v samples
  pub reached : length samples * share / 100 < at_most v samples

pub record ArePercentiles (samples : List ℕ) (d : DurationPercentiles) : Type 0 where
  pub p50 : IsPercentile 50 samples d.p50
  pub p95 : IsPercentile 95 samples d.p95
  pub p99 : IsPercentile 99 samples d.p99
  pub low : d.p50 ≤ d.p95
  pub high : d.p95 ≤ d.p99

rank-IsPercentile :
    (samples : List ℕ) (share : ℕ)
    → length samples * share / 100 < length samples
    → IsPercentile share samples (get_or_zero (sort samples) (length (sort samples) * share / 100))
rank-IsPercentile samples share h =
    let rank : length (sort samples) * share / 100 ≡ length samples * share / 100 =
      ap (λ n. n * share / 100) (length-sort samples) in
    let i = length (sort samples) * share / 100 in
    let inside : i < length (sort samples) = omega (arith, length-sort samples, rank) in
    let v = get_or_zero (sort samples) i in
    record {
      member = mem-sort v samples (mem-get_or_zero (sort samples) i inside);
      reached = omega (
        arith,
        at_most-get_or_zero (sort samples) i (sort-Sorted samples) inside,
        at_most-sort v samples,
        rank,
      );
    }

sorted-le :
    (samples : List ℕ) (i j : ℕ)
    → i ≤ j
    → j < length (sort samples)
    → get_or_zero (sort samples) i ≤ get_or_zero (sort samples) j
sorted-le samples i j h k = get_or_zero-le (sort samples) i j (sort-Sorted samples) h k

percentiles-ArePercentiles : (x : ℕ) (xs : List ℕ) → ArePercentiles (x ∷ xs) (percentiles (x ∷ xs))
unfolding percentiles
percentiles-ArePercentiles x xs =
    let n = length (sort (x ∷ xs)) in
    let size : n ≡ suc (length xs) = length-sort (x ∷ xs) in
    record {
      p50 = rank-IsPercentile (x ∷ xs) 50 (omega arith);
      p95 = rank-IsPercentile (x ∷ xs) 95 (omega arith);
      p99 = rank-IsPercentile (x ∷ xs) 99 (omega arith);
      low = sorted-le (x ∷ xs) (n * 50 / 100) (n * 95 / 100) (omega arith) (omega arith);
      high = sorted-le (x ∷ xs) (n * 95 / 100) (n * 99 / 100) (omega arith) (omega arith);
    }

-- The calls that change a histogram.
pub data Call : Type 0 where
  sample : ℤ → Call
  read : Call

abbrev pub call : RouteHistogram → Call → RouteHistogram
call h (sample d) = record_sample d h
call h read = (snapshot h).0

abbrev pub calls : RouteHistogram → List Call → RouteHistogram
calls h [] = h
calls h (c ∷ cs) = calls (call h c) cs

-- The cache is that of the samples, unless it is marked.
pub record IsCached (capacity : ℕ) (h : RouteHistogram) : Type 0 where
  pub size : h.max_size ≡ capacity
  pub bounded : length h.samples ≤ capacity
  pub fresh : h.dirty ≡ false → h.cached ≡ percentiles h.samples

length-drop_le :
    (n : ℕ) (xs : List ℕ) → 0 < n → 0 < length xs → suc (length (drop n xs)) ≤ length xs
length-drop_le zero xs p q = absurd (omega arith)
length-drop_le (suc n) [] p q = absurd (omega arith)
length-drop_le (suc n) (x ∷ xs) p q = omega (arith, drop_le n xs)
  where
    drop_le : (n : ℕ) (xs : List ℕ) → length (drop n xs) ≤ length xs
    drop_le zero xs = omega arith
    drop_le (suc n) [] = omega arith
    drop_le (suc n) (x ∷ xs) = omega (arith, drop_le n xs)

record_sample-IsCached :
    (capacity : ℕ) (d : ℤ) (h : RouteHistogram)
    → IsCached capacity h
    → IsCached capacity (record_sample d h)
unfolding record_sample
record_sample-IsCached capacity d h s =
    let more = length-append h.samples (pos_part d ∷ []) in
    let less =
      length-drop_le (cut h.max_size) (h.samples ++ pos_part d ∷ []) (ground arith) (omega arith) in
    record { size = s.size; bounded = ground arith; fresh = λ e. ground arith }

snapshot-IsCached :
    (capacity : ℕ) (h : RouteHistogram) → IsCached capacity h → IsCached capacity (snapshot h).0
unfolding snapshot recompute
snapshot-IsCached capacity h s = split h.dirty refl
  where
    split : (b : Bool) → h.dirty ≡ b → IsCached capacity (if b then recompute h else h)
    split true e = record { size = s.size; bounded = s.bounded; fresh = λ q. refl }
    split false e = s

calls-IsCached :
    (capacity : ℕ) (h : RouteHistogram) (cs : List Call)
    → IsCached capacity h
    → IsCached capacity (calls h cs)
calls-IsCached capacity h [] s = s
calls-IsCached capacity h (sample d ∷ cs) s =
    calls-IsCached capacity (record_sample d h) cs (record_sample-IsCached capacity d h s)
calls-IsCached capacity h (read ∷ cs) s =
    calls-IsCached capacity (snapshot h).0 cs (snapshot-IsCached capacity h s)

-- A new histogram, after any calls of Record and Snapshot, holds no more samples than its capacity,
-- and Snapshot answers as if it sorted them anew: with no samples 0, and otherwise with three samples
-- in rising order, where more than 50, 95 and 99 of a hundred samples are at most the first, the
-- second and the third.
pub calls-percentiles :
    (capacity : ℕ) (cs : List Call)
    → let h = calls (new_route_histogram capacity) cs in
      (length h.samples ≤ capacity)
      × ((snapshot h).1 ≡ percentiles h.samples)
      × (if is_empty h.samples
          then (snapshot h).1 ≡ no_percentiles
          else ArePercentiles h.samples (snapshot h).1)
unfolding new_route_histogram snapshot recompute percentiles
calls-percentiles capacity cs =
    let h = calls (new_route_histogram capacity) cs in
    let s =
      calls-IsCached capacity (new_route_histogram capacity) cs
        (record { size = refl; bounded = omega arith; fresh = λ e. refl }) in
    let answers : (snapshot h).1 ≡ percentiles h.samples = ground (arith, s.fresh) in
    (s.bounded, answers, split h.samples (snapshot h).1 answers)
  where
    split :
        (samples : List ℕ) (d : DurationPercentiles)
        → d ≡ percentiles samples
        → (if is_empty samples then d ≡ no_percentiles else ArePercentiles samples d)
    split [] d e = e
    split (x ∷ xs) d e = subst (ArePercentiles (x ∷ xs)) (sym e) (percentiles-ArePercentiles x xs)
