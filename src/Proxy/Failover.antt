-- ===== src/Proxy/Failover.antt =====
-- failoverResponseWriter of pkg/runtime/proxy.go over the client's ResponseWriter, whose calls are
-- kept in a log, newest first.
use fgoths_framework.Prelude.{
  ℕ, ◌≡◌, refl, ◌∙◌, Bool, true, false, not, ◌&&◌, List, [], ◌∷◌, if◌then◌else◌, arith, All, ◌↔◌,
  Bool-cases, inl, inr,
}
use fgoths_framework.Proxy.Retry.{is_failure}

pub data WriterCall : Type 0 where
  header : ℕ → WriterCall
  body : List ℕ → WriterCall
  flush : WriterCall

pub record FailoverWriter : Type 0 where
  pub code : ℕ
  pub failed : Bool
  pub committed : Bool
  pub log : List WriterCall

unfoldable pub new_writer : FailoverWriter
new_writer = record { code = 200; failed = false; committed = false; log = [] }

unfoldable pub write_header : ℕ → FailoverWriter → FailoverWriter
write_header code fw =
    if fw.committed
    then fw
    else if is_failure code
    then record fw { failed = true }
    else record fw { committed = true; code = code; log = header code ∷ fw.log }

-- The number of bytes that `Write` reports is that of the client's writer, or all of them.
unfoldable pub write : List ℕ → FailoverWriter → FailoverWriter
write b fw =
    if fw.failed && not fw.committed
    then fw
    else record fw { committed = true; log = body b ∷ fw.log }

unfoldable pub flush_writer : FailoverWriter → FailoverWriter
flush_writer fw = record fw { log = flush ∷ fw.log }

unfoldable pub call : FailoverWriter → WriterCall → FailoverWriter
unfolding write_header write flush_writer
call fw (header code) = write_header code fw
call fw (body b) = write b fw
call fw flush = flush_writer fw

abbrev pub calls : FailoverWriter → List WriterCall → FailoverWriter
calls fw [] = fw
calls fw (c ∷ cs) = calls (call fw c) cs

-- The test of ServeHTTP after the primary attempt.
abbrev pub hands_over : FailoverWriter → Bool
hands_over fw = fw.failed && not fw.committed

abbrev pub IsWrite : WriterCall → Type 0
IsWrite (header _) = Unit
IsWrite (body _) = Unit
IsWrite flush = ⊥

-- What holds after any calls but flushes.
record Settled (fw : FailoverWriter) : Type 0 where
  silent : fw.committed ≡ false → fw.log ≡ []

call-Settled : (fw : FailoverWriter) (c : WriterCall) → IsWrite c → Settled fw → Settled (call fw c)
unfolding call
call-Settled fw (header code) w s = ground arith
call-Settled fw (body b) w s = ground arith
call-Settled fw flush w s = elim w [ ]

calls-Settled :
    (fw : FailoverWriter) (cs : List WriterCall)
    → All IsWrite cs
    → Settled fw
    → Settled (calls fw cs)
calls-Settled fw [] w s = s
calls-Settled fw (c ∷ cs) (w, ws) s = calls-Settled (call fw c) cs ws (call-Settled fw c w s)

-- When ServeHTTP hands over to the failover proxy and the primary attempt made no flush, the client
-- has not been sent anything.
hands_over_silent :
    (cs : List WriterCall)
    → All IsWrite cs
    → hands_over (calls new_writer cs) ≡ true
    → (calls new_writer cs).log ≡ []
unfolding new_writer
hands_over_silent cs w h =
    (calls-Settled new_writer cs w (record { silent = λ e. refl })).silent (ground arith)

call_committed :
    (fw : FailoverWriter) (c : WriterCall)
    → fw.committed ≡ true
    → ((call fw c).committed ≡ true) × ((call fw c).code ≡ fw.code)
unfolding call
call_committed fw (header code) h = (ground arith, ground arith)
call_committed fw (body b) h = (ground arith, ground arith)
call_committed fw flush h = (ground arith, ground arith)

-- Once a response is committed, no later call of the primary undoes it or changes its status, so
-- the failover proxy stays out.
committed_stays :
    (fw : FailoverWriter) (cs : List WriterCall)
    → fw.committed ≡ true
    → (hands_over (calls fw cs) ≡ false) × ((calls fw cs).code ≡ fw.code)
committed_stays fw [] h = (ground arith, refl)
committed_stays fw (c ∷ cs) h =
    let (committed, code) = call_committed fw c h in
    let (out, code') = committed_stays (call fw c) cs committed in (out, code' ∙ code)

-- A flush is passed on even while a failing response is being suppressed: for every failing status
-- the failover proxy takes over although the client has already been sent a flush, with which
-- net/http sends the header of an implicit 200.
flush_leaks :
    (code : ℕ) (b : List ℕ)
    → is_failure code ≡ true
    → (hands_over (calls new_writer (header code ∷ body b ∷ flush ∷ [])) ≡ true)
      × ((calls new_writer (header code ∷ body b ∷ flush ∷ [])).log ≡ flush ∷ [])
unfolding new_writer call
flush_leaks code b h = (ground arith, ground arith)

-- All headers are failing.
abbrev OnlyFailing : List WriterCall → Type 0
OnlyFailing [] = Unit
OnlyFailing (header code ∷ cs) = (is_failure code ≡ true) × OnlyFailing cs
OnlyFailing (body b ∷ cs) = OnlyFailing cs
OnlyFailing (flush ∷ cs) = OnlyFailing cs

-- The first call that is not a flush is a failing header, and so are all headers after it.
abbrev pub BeginsFailing : List WriterCall → Type 0
BeginsFailing [] = ⊥
BeginsFailing (header code ∷ cs) = (is_failure code ≡ true) × OnlyFailing cs
BeginsFailing (body b ∷ cs) = ⊥
BeginsFailing (flush ∷ cs) = BeginsFailing cs

failed-OnlyFailing :
    (fw : FailoverWriter) (cs : List WriterCall)
    → fw.failed ≡ true
    → fw.committed ≡ false
    → (hands_over (calls fw cs) ≡ true) ↔ OnlyFailing cs
unfolding call
failed-OnlyFailing fw [] failed open_yet = ((λ e. tt), λ h. ground arith)
failed-OnlyFailing fw (body b ∷ cs) failed open_yet =
    failed-OnlyFailing (call fw (body b)) cs (ground arith) (ground arith)
failed-OnlyFailing fw (flush ∷ cs) failed open_yet =
    failed-OnlyFailing (call fw flush) cs (ground arith) (ground arith)
failed-OnlyFailing fw (header code ∷ cs) failed open_yet = elim (Bool-cases (is_failure code)) [
  | inl failing ↦
      let (to, from) =
        failed-OnlyFailing (call fw (header code)) cs (ground arith) (ground arith) in
      ((λ e. (failing, to e)), λ h. from h.1)
  | inr fine ↦
      let (out, _) = committed_stays (call fw (header code)) cs (ground arith) in
      ((λ e. absurd (ground (arith, out))), λ h. absurd (ground (arith, h.0)))
]

fresh-BeginsFailing :
    (fw : FailoverWriter) (cs : List WriterCall)
    → fw.failed ≡ false
    → fw.committed ≡ false
    → (hands_over (calls fw cs) ≡ true) ↔ BeginsFailing cs
unfolding call
fresh-BeginsFailing fw [] fresh open_yet = ((λ e. ground arith), λ h. elim h [ ])
fresh-BeginsFailing fw (body b ∷ cs) fresh open_yet =
    let (out, _) = committed_stays (call fw (body b)) cs (ground arith) in
    ((λ e. ground (arith, out)), λ h. elim h [ ])
fresh-BeginsFailing fw (flush ∷ cs) fresh open_yet =
    fresh-BeginsFailing (call fw flush) cs (ground arith) (ground arith)
fresh-BeginsFailing fw (header code ∷ cs) fresh open_yet = elim (Bool-cases (is_failure code)) [
  | inl failing ↦
      let (to, from) =
        failed-OnlyFailing (call fw (header code)) cs (ground arith) (ground arith) in
      ((λ e. (failing, to e)), λ h. from h.1)
  | inr fine ↦
      let (out, _) = committed_stays (call fw (header code)) cs (ground arith) in
      ((λ e. absurd (ground (arith, out))), λ h. absurd (ground (arith, h.0)))
]

pub hands_over_iff :
    (cs : List WriterCall) → (hands_over (calls new_writer cs) ≡ true) ↔ BeginsFailing cs
unfolding new_writer
hands_over_iff cs = fresh-BeginsFailing new_writer cs refl refl
