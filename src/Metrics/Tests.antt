-- ===== src/Metrics/Tests.antt =====
-- Runs of pkg/runtime/metrics.go, and the theorems at concrete inputs.
use fgoths_framework.Prelude.{
  ◌≡◌, refl, true, false, List, [], ◌∷◌, none, some, arith, length, is_empty, if◌then◌else◌, ◌==◌,
  ◌≤◌, Bool,
}
use fgoths_framework.Prelude.Int.{pos, negsuc}
use fgoths_framework.Prelude.Float.{float}
use fgoths_framework.Prelude.Text.{codes, text_functions}
use fgoths_framework.Prelude.Maps.{map_functions}
use fgoths_framework.Metrics.Histogram.{
  new_route_histogram, record_sample, percentiles, recompute, snapshot, no_percentiles,
}
use fgoths_framework.Metrics.Percentiles.{
  Call, sample, read, calls, ArePercentiles, calls-percentiles,
}
use fgoths_framework.Metrics.Window.{
  make_buffer, read_slot, write_slot, slots, push_outcome, error_window, new_error_ring,
}
use fgoths_framework.Metrics.Ring.{IsRing, push_all, last_of_all, failures}
use fgoths_framework.Metrics.Recent.{reported, push_all-Refines, error_window-recent}
use fgoths_framework.Metrics.Counters.{add_at, new_metrics, record_request}
use fgoths_framework.Metrics.Totals.{Request, IsBalanced, record_all, record_all-IsBalanced}

metrics : Unit {0}
unfolding text_functions map_functions new_route_histogram record_sample percentiles recompute
    snapshot make_buffer read_slot write_slot slots push_outcome error_window add_at new_metrics
    record_request
metrics = tt

abbrev some_calls : List Call
some_calls = sample (pos 7) ∷ sample (pos 3) ∷ read ∷ sample (pos 5) ∷ sample (negsuc 0) ∷ []

calls-percentiles_example :
    let h = calls (new_route_histogram 3) some_calls in
    (length h.samples ≤ 3)
    × ((snapshot h).1 ≡ percentiles h.samples)
    × (if is_empty h.samples
        then (snapshot h).1 ≡ no_percentiles
        else ArePercentiles h.samples (snapshot h).1)
calls-percentiles_example = calls-percentiles 3 some_calls

abbrev outcomes : List Bool
outcomes = true ∷ true ∷ true ∷ false ∷ []

push_all-Refines_example : IsRing 3 (push_all 3 new_error_ring outcomes) (last_of_all 3 outcomes)
push_all-Refines_example = push_all-Refines 3 outcomes (omega arith)

error_window-recent_example : error_window (push_all 3 new_error_ring outcomes) (pos 1) ≡ (
    if reported 1 (last_of_all 3 outcomes) == 0 then (0, float 0 1) else (
      reported 1 (last_of_all 3 outcomes),
      float (failures (last_of_all 3 outcomes)) (reported 1 (last_of_all 3 outcomes)),
    ))
error_window-recent_example = error_window-recent 3 outcomes 1 (omega arith)

-- Two failures and then a success: the rate of the last request is 2.
rate_above_one : error_window (push_all 3 new_error_ring outcomes) (pos 1) ≡ (1, float 2 1)
unfolding metrics
rate_above_one = refl

abbrev requests : List Request
requests =
    record { method = codes "get"; route = codes "/a/"; status = 200; elapsed = some (pos 5) }
    ∷ record { method = codes " "; route = codes "/b"; status = 503; elapsed = none }
    ∷ []

record_all-IsBalanced_example : IsBalanced (record_all new_metrics requests)
record_all-IsBalanced_example = record_all-IsBalanced requests

requests_by_method : (record_all new_metrics requests).by_method ≡ (codes "GET", 2) ∷ []
unfolding metrics
requests_by_method = refl
