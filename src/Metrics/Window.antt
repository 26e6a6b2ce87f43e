-- ===== src/Metrics/Window.antt =====
-- The ring of the last outcomes in Metrics, and ErrorWindow (pkg/runtime/metrics.go). The capacity is
-- an argument, which Counters gives as errorWindowCap.
use fgoths_framework.Prelude.{
  ℕ, zero, suc, ◌+◌, ◌-◌, ◌%◌, Bool, true, false, List, [], ◌∷◌, Option, none, some, ltb,
  if◌then◌else◌, ◌==◌,
}
use fgoths_framework.Prelude.Int.{ℤ, pos, pos_part, leb_ℤ}
use fgoths_framework.Prelude.Float.{Float, float}

-- `none` is the buffer before the first request.
pub record ErrorRing : Type 0 where
  pub buffer : Option (List Bool)
  pub head : ℕ
  pub count : ℕ
  pub errors : ℕ

abbrev pub new_error_ring : ErrorRing
new_error_ring = record { buffer = none; head = 0; count = 0; errors = 0 }

unfoldable pub make_buffer : ℕ → List Bool
make_buffer zero = []
make_buffer (suc n) = false ∷ make_buffer n

-- An index out of range panics in Go.
unfoldable pub read_slot : List Bool → ℕ → Bool
read_slot [] i = false
read_slot (b ∷ bs) zero = b
read_slot (b ∷ bs) (suc i) = read_slot bs i

unfoldable pub write_slot : List Bool → ℕ → Bool → List Bool
write_slot [] i v = []
write_slot (b ∷ bs) zero v = v ∷ bs
write_slot (b ∷ bs) (suc i) v = b ∷ write_slot bs i v

unfoldable pub slots : ℕ → Option (List Bool) → List Bool
unfolding make_buffer
slots cap none = make_buffer cap
slots cap (some bs) = bs

abbrev pub one_if : Bool → ℕ
one_if true = 1
one_if false = 0

unfoldable pub push_outcome : ℕ → Bool → ErrorRing → ErrorRing
unfolding slots read_slot write_slot
push_outcome cap failed r =
    let bs = slots cap r.buffer in
    let evicted = read_slot bs r.head in
    if ltb r.count cap
    then record {
      buffer = some (write_slot bs r.head failed);
      head = (r.head + 1) % cap;
      count = r.count + 1;
      errors = r.errors + one_if failed;
    }
    else record {
      buffer = some (write_slot bs r.head failed);
      head = (r.head + 1) % cap;
      count = r.count;
      errors = r.errors - one_if evicted + one_if failed;
    }

-- The number of requests and the rate, as errors over requests.
unfoldable pub error_window : ErrorRing → ℤ → ℕ × Float
error_window r size =
    let requests = if ltb (pos_part size) r.count then pos_part size else r.count in
    if leb_ℤ size (pos 0)
    then (0, float 0 1)
    else if requests == 0
    then (0, float 0 1)
    else (requests, float r.errors requests)
