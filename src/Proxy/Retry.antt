-- ===== src/Proxy/Retry.antt =====
-- proxyRetryTransport.RoundTrip of pkg/runtime/proxy.go. The base transport and the request's body
-- are not under this repository: what they do at each attempt is a function of its number. A base
-- transport returns a response or an error, as http.RoundTripper documents.
use native.Mathlib.Decide.{ℕ_discrete}
use fgoths_framework.Prelude.{
  ℕ, zero, suc, ◌+◌, ◌≤◌, ◌<◌, ◌≡◌, refl, sym, ap, ◌∙◌, Bool, true, false, ◌==◌, ◌||◌, leb,
  if◌then◌else◌, arith, Bool-cases, inl, inr, ◌⊎◌, ◌&&◌,
}

-- What an attempt yields; `body_error` is an error of req.GetBody.
pub data Outcome : Type 0 where
  response : ℕ → Outcome
  failed : Outcome
  body_error : Outcome

pub record Reply : Type 0 where
  pub outcome : Outcome
  pub closed : Bool  -- the response's body has been closed
  pub attempts : ℕ
  pub slept : ℕ

-- A status that is tried again: a server error, or 429.
abbrev pub is_failure : ℕ → Bool
is_failure status = leb 500 status || status == 429

abbrev retryable : Outcome → Bool
retryable (response status) = is_failure status
retryable failed = true
retryable body_error = false

abbrev has_body : Outcome → Bool
has_body (response _) = true
has_body failed = false
has_body body_error = false

-- Where the loop stops: the first attempt from `k` on that is not tried again, or the last one.
pub record StopsAt (attempt : ℕ → Outcome) (k left : ℕ) (r : Reply) : Type 0 where
  pub index : ℕ
  pub from : k ≤ index
  pub upto : index ≤ k + left
  pub counted : r.attempts ≡ suc index
  pub result : r.outcome ≡ attempt index
  pub earlier : (i : ℕ) → k ≤ i → i < index → retryable (attempt i) ≡ true
  pub settled : (retryable (attempt index) ≡ false) ⊎ (index ≡ k + left)
  pub body : r.closed ≡ (retryable (attempt index) && has_body (attempt index))

and_self : (b : Bool) → (b && true) ≡ b
and_self b = ground arith

module _ (attempt : ℕ → Outcome) (delay : ℕ) where
  -- The loop at attempt `k`, with `left` retries after it.
  unfoldable pub round_trip_from : ℕ → ℕ → ℕ → Reply
  round_trip_from zero k slept = record {
    outcome = attempt k;
    closed = retryable (attempt k) && has_body (attempt k);
    attempts = suc k;
    slept = slept;
  }
  round_trip_from (suc left) k slept =
      let rest = round_trip_from left (suc k) (slept + delay) in
      let stop : Reply = record {
        outcome = attempt k;
        closed = false;
        attempts = suc k;
        slept = slept;
      } in
      if retryable (attempt k) then rest else stop

  -- `read_error` is an error of the first reading of a body that cannot be read twice.
  unfoldable pub round_trip : Bool → ℕ → Reply
  unfolding round_trip_from
  round_trip read_error retries =
      let run = round_trip_from retries 0 0 in
      if read_error
      then record { outcome = body_error; closed = false; attempts = 0; slept = 0 }
      else run

  round_trip_from-StopsAt :
      (left k slept : ℕ) → StopsAt attempt k left (round_trip_from left k slept)
  unfolding round_trip_from
  round_trip_from-StopsAt zero k slept = record {
    index = k;
    from = omega arith;
    upto = omega arith;
    counted = refl;
    result = refl;
    earlier = λ i h l. absurd (omega arith);
    settled = inr (omega arith);
    body = refl;
  }
  round_trip_from-StopsAt (suc left) k slept = elim (Bool-cases (retryable (attempt k))) [
    | inl again ↦
        let s = round_trip_from-StopsAt left (suc k) (slept + delay) in
        rw (again, round_trip_from)
          (record {
            index = s.index;
            from = omega (arith, s.from);
            upto = omega (arith, s.upto);
            counted = s.counted;
            result = s.result;
            earlier = λ i h l. elim (ℕ_discrete i k) [
              | yes same ↦ rw same again
              | no other ↦ s.earlier i (omega arith) l
            ];
            settled = elim s.settled [ inl done ↦ inl done | inr end ↦ inr (omega arith) ];
            body = s.body;
          })
    | inr done ↦
        rw (done, round_trip_from)
          (record {
            index = k;
            from = omega arith;
            upto = omega arith;
            counted = refl;
            result = refl;
            earlier = λ i h l. absurd (omega arith);
            settled = inl done;
            body = ground arith;
          })
  ]

  -- A request whose body can be read is tried until an attempt is neither an error nor a failing
  -- status, or the retries are used up; the reply is that of the last attempt made, whatever was
  -- tried before it failed, and its body is closed exactly if that attempt was a failing response.
  pub round_trip-StopsAt : (retries : ℕ) → StopsAt attempt 0 retries (round_trip false retries)
  unfolding round_trip
  round_trip-StopsAt retries = round_trip_from-StopsAt retries 0 0

  -- A failing response that the retries could not improve on reaches the caller with its body closed.
  round_trip_closed :
      (retries status : ℕ)
      → (round_trip false retries).outcome ≡ response status
      → (round_trip false retries).closed ≡ is_failure status
  round_trip_closed retries status e =
      let s = round_trip-StopsAt retries in
      let at : attempt s.index ≡ response status = sym s.result ∙ e in
      s.body ∙ ap (λ o. retryable o && has_body o) at ∙ and_self (is_failure status)
