-- ===== src/Interceptor/Breaker/Episodes.antt =====
-- interceptor/circuitbreaker.go: what one call to allow or record does to an episode.
use gortexa.Common.{
  ℕ, zero, suc, nat_eq, true, false, ltb, ◌+◌, ◌≤◌, ◌<◌, ◌≡◌, ◌≢◌, arith, refl, ◌∙◌, if◌then◌else◌,
  nat_beq_iff,
}
use native.Mathlib.Decide.{dec_lt}
use gortexa.Interceptor.Breaker.{
  closed, open_state, Outcome, failure, success, neutral, Breaker, Admission, allow, record_outcome,
}

-- An outcome of a call that was admitted into an earlier or a later episode changes nothing.
pub record_outcome_stale :
    (out : Outcome) (now : ℕ) (adm : Admission) (b : Breaker)
    → adm.gen ≢ b.gen
    → record_outcome out now adm b ≡ b
unfolding record_outcome
record_outcome_stale out now adm b h = ground (arith, nat_beq_iff adm.gen b.gen)

-- A neutral outcome leaves the state, the failure count, the timer and the episode as they were;
-- the most that it does is to free the slot of a probe.
pub record_outcome_neutral :
    (now : ℕ) (adm : Admission) (b : Breaker)
    → let b' = record_outcome neutral now adm b in
      (b'.state ≡ b.state)
      × (b'.failures ≡ b.failures)
      × (b'.opened_at ≡ b.opened_at)
      × (b'.half_open_at ≡ b.half_open_at)
      × (b'.gen ≡ b.gen)
      × (b'.probes ≤ b.probes)
unfolding record_outcome
record_outcome_neutral now adm b = ground arith

-- No state keeps every caller out: once `open_for` has passed since the breaker opened and since
-- its half-open episode began, the next caller is admitted.
pub allow_after_open_for :
    (now stamp : ℕ) (b : Breaker)
    → b.opened_at + b.open_for ≤ now
    → b.half_open_at + b.open_for ≤ now
    → (allow now stamp b).1.admitted ≡ true
unfolding allow
allow_after_open_for now stamp b h k = ground arith

-- A call from start to end at one instant.
unfoldable pub call : ℕ → Outcome → Breaker → Breaker
unfolding allow record_outcome
call now out b =
    let (b', adm) = allow now now b in if adm.admitted then record_outcome out now adm b' else b'

pub call-eq :
    (now : ℕ) (out : Outcome) (b : Breaker)
    → call now out b ≡ (
        let (b', adm) = allow now now b in
        if adm.admitted then record_outcome out now adm b' else b')
unfolding call
call-eq now out b = refl

unfoldable pub calls : ℕ → ℕ → Outcome → Breaker → Breaker
calls zero now out b = b
calls (suc n) now out b = calls n now out (call now out b)

call_open :
    (now : ℕ) (b : Breaker)
    → b.state ≡ open_state
    → now < b.opened_at + b.open_for
    → call now failure b ≡ b
unfolding call
call_open now b h k = ground arith

calls_open :
    (n now : ℕ) (b : Breaker)
    → b.state ≡ open_state
    → now < b.opened_at + b.open_for
    → calls n now failure b ≡ b
unfolding calls
calls_open zero now b h k = refl
calls_open (suc n) now b h k = rw (call_open now b h k) (calls_open n now b h k)

call_closed_below :
    (now : ℕ) (b : Breaker)
    → b.state ≡ closed
    → b.failures + 1 < b.max_failures
    → call now failure b ≡ record b { failures = b.failures + 1 }
unfolding call
call_closed_below now b h k = ground (arith, nat_beq_iff b.gen b.gen)

call_trips :
    (now : ℕ) (b : Breaker)
    → b.state ≡ closed
    → b.max_failures ≤ b.failures + 1
    → let b' = call now failure b in
      (b'.state ≡ open_state) × (b'.opened_at ≡ now) × (b'.open_for ≡ b.open_for)
unfolding call
call_trips now b h k = ground (arith, nat_beq_iff b.gen b.gen)

-- A closed breaker trips at the failure that brings the count to the limit and at no earlier one:
-- after `n` consecutive failed calls at one instant it is closed exactly while `failures + n` is
-- below `max_failures`, and open from then on.
pub calls-failure :
    (n now : ℕ) (b : Breaker)
    → b.state ≡ closed
    → b.failures < b.max_failures
    → 0 < b.open_for
    → (calls n now failure b).state
      ≡ (if ltb (b.failures + n) b.max_failures then closed else open_state)
unfolding calls
calls-failure zero now b h k o = ground arith
calls-failure (suc n) now b h k o = elim (dec_lt (b.failures + 1) b.max_failures) [
  | yes below ↦
      rw (call_closed_below now b h below, calls)
        (ground (arith, calls-failure n now (record b { failures = b.failures + 1 }) h below o))
  | no last ↦
      let (opened, at, same) = call_trips now b h (omega arith) in
      rw (calls_open n now (call now failure b) opened (omega arith), calls) (ground arith)
]

allow_opened :
    (now : ℕ) (b : Breaker)
    → b.state ≡ open_state
    → now < b.opened_at + b.open_for
    → (allow now now b).1.admitted ≡ false
unfolding allow
allow_opened now b h k = ground arith

-- The next caller after those failures is let in exactly while the count is below the limit.
pub allow-calls_failure :
    (n now : ℕ) (b : Breaker)
    → b.state ≡ closed
    → b.failures < b.max_failures
    → 0 < b.open_for
    → (allow now now (calls n now failure b)).1.admitted ≡ ltb (b.failures + n) b.max_failures
unfolding calls allow
allow-calls_failure zero now b h k o = ground arith
allow-calls_failure (suc n) now b h k o = elim (dec_lt (b.failures + 1) b.max_failures) [
  | yes below ↦
      rw (call_closed_below now b h below, calls)
        (ground
          (arith, allow-calls_failure n now (record b { failures = b.failures + 1 }) h below o))
  | no last ↦
      let (opened, when, same) = call_trips now b h (omega arith) in
      rw (calls_open n now (call now failure b) opened (omega arith), calls)
        (allow_opened now (call now failure b) opened (omega arith) ∙ ground arith)
]

-- One success between two failures starts the count again.
pub call-success :
    (now : ℕ) (b : Breaker) → b.state ≡ closed → call now success b ≡ record b { failures = 0 }
unfolding call
call-success now b h = ground (arith, nat_beq_iff b.gen b.gen)
