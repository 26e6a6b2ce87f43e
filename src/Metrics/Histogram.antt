-- ===== src/Metrics/Histogram.antt =====
-- RouteHistogram of pkg/runtime/metrics.go. Durations are nanoseconds.
use fgoths_framework.Prelude.{
  ℕ, ◌*◌, ◌/◌, Bool, true, false, List, [], ◌∷◌, ◌++◌, is_empty, length, drop, ltb, if◌then◌else◌,
}
use fgoths_framework.Prelude.Int.{ℤ, pos_part}
use fgoths_framework.Metrics.Sorting.{sort, get_or_zero}

pub record DurationPercentiles : Type 0 where
  pub p50 : ℕ
  pub p95 : ℕ
  pub p99 : ℕ

pub record RouteHistogram : Type 0 where
  pub samples : List ℕ
  pub max_size : ℕ
  pub dirty : Bool
  pub cached : DurationPercentiles

abbrev pub no_percentiles : DurationPercentiles
no_percentiles = record { p50 = 0; p95 = 0; p99 = 0 }

unfoldable pub new_route_histogram : ℕ → RouteHistogram
new_route_histogram capacity = record {
  samples = [];
  max_size = capacity;
  dirty = false;
  cached = no_percentiles;
}

-- The oldest samples that go when there are too many.
abbrev pub cut : ℕ → ℕ
cut max_size = if ltb (max_size / 10) 1 then 1 else max_size / 10

-- A negative duration counts as 0.
unfoldable pub record_sample : ℤ → RouteHistogram → RouteHistogram
record_sample d h =
    let samples = h.samples ++ pos_part d ∷ [] in
    record h {
      samples = if ltb h.max_size (length samples) then drop (cut h.max_size) samples else samples;
      dirty = true;
    }

unfoldable pub percentiles : List ℕ → DurationPercentiles
unfolding sort get_or_zero
percentiles samples =
    let sorted = sort samples in
    let n = length sorted in
    let found : DurationPercentiles = record {
      p50 = get_or_zero sorted (n * 50 / 100);
      p95 = get_or_zero sorted (n * 95 / 100);
      p99 = get_or_zero sorted (n * 99 / 100);
    } in
    if is_empty samples then no_percentiles else found

unfoldable pub recompute : RouteHistogram → RouteHistogram
unfolding percentiles
recompute h = record h { cached = percentiles h.samples; dirty = false }

unfoldable pub snapshot : RouteHistogram → RouteHistogram × DurationPercentiles
unfolding recompute
snapshot h = let h' = if h.dirty then recompute h else h in (h', h'.cached)
