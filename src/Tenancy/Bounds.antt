-- ===== src/Tenancy/Bounds.antt =====
-- What the tenant quota grants (pkg/runtime/tenant.go).
use mathlib.Core.List.{append-nil}
use fgoths_framework.Prelude.{
  ℕ, ◌+◌, ◌≤◌, ◌<◌, ◌≡◌, Bool, true, false, List, [], ◌∷◌, ◌++◌, arith, keep, length, length-append,
  is_empty, ltb, if◌then◌else◌, sym, subst,
}
use fgoths_framework.Prelude.Int.{pos}
use fgoths_framework.Prelude.Text.{Str, str_eq, str_eq_iff}
use fgoths_framework.Tenancy.Middleware.{tenant_of, new_quota_store, after_cutoff, recent}
use fgoths_framework.Tenancy.Entries.{keep-append}
use fgoths_framework.Tenancy.Agreement.{Log, times_of, times_of-append, has_room, log_after}
use fgoths_framework.Tenancy.Quota.{
  Arrival, InOrder, serve_all, log_step, log_all, serve_all-log_all,
}

-- The instant lies in the window that ends at `now`.
abbrev pub in_window : (window now at : ℕ) → Bool
in_window window now at = if ltb now at then false else after_cutoff window now at

abbrev pub requests_in : (window now : ℕ) → Str → Log → ℕ
requests_in window now k log = length (keep (in_window window now) (times_of k log))

-- A later window holds no more of the old instants, and none of the new before its time.
requests_in-le :
    (window now later : ℕ) (ts : List ℕ)
    → now ≤ later
    → length (keep (in_window window later) ts) ≤ length (recent window now ts)
requests_in-le window now later [] h = omega arith
requests_in-le window now later (t ∷ ts) h = ground (arith, requests_in-le window now later ts h)

record IsBounded (limit window : ℕ) (log : Log) : Type 0 where
  bounded : (k : Str) (now : ℕ) → requests_in window now k log ≤ limit

append-requests_in :
    (window now : ℕ) (k j : Str) (t : ℕ) (log : Log)
    → requests_in window now k (log ++ (j, t) ∷ [])
      ≡ requests_in window now k log
        + (if str_eq j k then if in_window window now t then 1 else 0 else 0)
append-requests_in window now k j t log = ground (
  arith,
  times_of-append k j t log,
  keep-append (in_window window now) (times_of k log) (t ∷ []),
  append-nil (times_of k log),
  length-append (keep (in_window window now) (times_of k log))
      (keep (in_window window now) (t ∷ [])),
)

log_after-IsBounded :
    (limit window : ℕ) (k : Str) (at : ℕ) (log : Log)
    → IsBounded limit window log
    → IsBounded limit window (log_after (has_room limit window k at log) k at log)
log_after-IsBounded limit window k at log b = record {
  bounded = λ j now. ground (
    arith,
    b.bounded j now,
    str_eq_iff k j,
    append-requests_in window now j k at log,
    requests_in-le window at now (times_of k log),
  );
}

log_step-IsBounded :
    (limit window : ℕ) (log : Log) (a : Arrival)
    → IsBounded limit window log
    → IsBounded limit window (log_step limit window log a)
log_step-IsBounded limit window log a b =
    let k = tenant_of a.context a.header in
    choose (is_empty k) (log_after-IsBounded limit window k a.at log b)
  where
    choose :
        (blank : Bool) {log' : Log}
        → IsBounded limit window log'
        → IsBounded limit window (if blank then log else log')
    choose true c = b
    choose false c = c

log_all-IsBounded :
    (limit window : ℕ) (log : Log) (arrivals : List Arrival)
    → IsBounded limit window log
    → IsBounded limit window (log_all limit window log arrivals)
log_all-IsBounded limit window log [] b = b
log_all-IsBounded limit window log (a ∷ rest) b =
    log_all-IsBounded limit window (log_step limit window log a) rest
      (log_step-IsBounded limit window log a b)

-- Of requests in the order of time, with a positive limit and window, no tenant has more than `limit`
-- admitted within any window, wherever the window ends.
pub serve_all-requests_in :
    (limit window : ℕ) (arrivals : List Arrival) (k : Str) (now : ℕ)
    → 0 < limit
    → 0 < window
    → InOrder 0 arrivals
    → requests_in window now k (serve_all (pos limit) (pos window) new_quota_store [] arrivals).1
      ≤ limit
serve_all-requests_in limit window arrivals k now l w o =
    let start : IsBounded limit window [] = record { bounded = λ j t. omega arith } in
    subst (λ log. requests_in window now k log ≤ limit)
      (sym (serve_all-log_all limit window arrivals l w o))
      ((log_all-IsBounded limit window [] arrivals start).bounded k now)
