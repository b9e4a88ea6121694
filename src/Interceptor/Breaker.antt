-- ===== src/Interceptor/Breaker.antt =====
-- interceptor/circuitbreaker.go: one breaker, its state machine, and the map of breakers by method
-- (`Unary`). A breaker's methods run under its lock, so each is one step. `failures` and `probes`
-- are Go ints that stay below the configured limits, and `gen` is a uint64, which wraps.
pub mod Episodes
pub mod System
pub mod Unary
mod Examples
use gortexa.Common.{
  ℕ, nat_eq, Bool, true, false, Option, none, some, leb, ltb, ◌+◌, ◌-◌, ◌%◌, ◌^◌, ◌==◌, ◌||◌, not,
  if◌then◌else◌,
}

-- cbState
pub data CbState : Type 0 where
  closed open_state half_open : CbState

-- outcome
pub data Outcome : Type 0 where
  failure success neutral : Outcome

-- breaker: times are instants in nanoseconds.
pub record Breaker : Type 0 where
  pub max_failures : ℕ
  pub open_for : ℕ
  pub half_open_max : ℕ
  pub state : CbState
  pub failures : ℕ
  pub opened_at : ℕ
  pub half_open_at : ℕ
  pub probes : ℕ
  pub gen : ℕ

-- admission
pub record Admission : Type 0 where
  pub admitted : Bool
  pub probe : Bool
  pub gen : ℕ
  pub from : CbState
  pub to : CbState
  pub changed : Bool

abbrev pub u64 : ℕ → ℕ
u64 n = n % 2 ^ 64

-- A new half-open episode, with the caller as its first probe.
episode : ℕ → Breaker → Breaker
episode stamp b = record b {
  state = half_open;
  gen = u64 (b.gen + 1);
  probes = 1;
  half_open_at = stamp;
}

first_probe : ℕ → CbState → Bool → Breaker → Breaker × Admission
unfolding episode
first_probe stamp prev changed b =
    let b' = episode stamp b in
    (
      b',
      record {
        admitted = true;
        probe = true;
        gen = b'.gen;
        from = prev;
        to = half_open;
        changed = changed;
      },
    )

refuse : CbState → Breaker → Breaker × Admission
refuse prev b = (
  b,
  record { admitted = false; probe = false; gen = 0; from = prev; to = prev; changed = false },
)

-- The switch of allow. `now` is the clock that time.Since reads and `stamp` the later time.Now.
allow_in : CbState → ℕ → ℕ → Breaker → Breaker × Admission
unfolding first_probe refuse
allow_in open_state now stamp b =
    if leb (b.opened_at + b.open_for) now
    then first_probe stamp open_state true b
    else refuse open_state b
allow_in half_open now stamp b =
    if ltb b.probes b.half_open_max
    then (
      record b { probes = b.probes + 1 },
      record {
        admitted = true;
        probe = true;
        gen = b.gen;
        from = half_open;
        to = half_open;
        changed = false;
      },
    )
    else if leb (b.half_open_at + b.open_for) now
    then first_probe stamp half_open false b
    else refuse half_open b
allow_in closed now stamp b = (
  b,
  record {
    admitted = true;
    probe = false;
    gen = b.gen;
    from = closed;
    to = closed;
    changed = false;
  },
)

-- allow
unfoldable pub allow : ℕ → ℕ → Breaker → Breaker × Admission
unfolding allow_in
allow now stamp b = allow_in b.state now stamp b

-- record, in the half-open state and past its guard: the slot is freed first.
resolve_probe : Outcome → ℕ → Breaker → Breaker
resolve_probe neutral now b = b
resolve_probe success now b = record b { state = closed; failures = 0; gen = u64 (b.gen + 1) }
resolve_probe failure now b = record b {
  state = open_state;
  opened_at = now;
  gen = u64 (b.gen + 1);
}

-- record, in the closed state and past its guard.
count_outcome : Outcome → ℕ → Breaker → Breaker
count_outcome neutral now b = b
count_outcome success now b = record b { failures = 0 }
count_outcome failure now b =
    let b' = record b { failures = b.failures + 1 } in
    if leb b'.max_failures b'.failures
    then record b' { state = open_state; opened_at = now; gen = u64 (b.gen + 1) }
    else b'

record_in : CbState → Outcome → ℕ → Admission → Breaker → Breaker
unfolding resolve_probe count_outcome
record_in half_open out now adm b =
    if not adm.probe || not (adm.gen == b.gen)
    then b
    else resolve_probe out now (record b { probes = b.probes - 1 })
record_in closed out now adm b =
    if adm.probe || not (adm.gen == b.gen) then b else count_outcome out now b
record_in open_state out now adm b = b

-- record, less the report of a change, which `Unary` makes from the two states.
unfoldable pub record_outcome : Outcome → ℕ → Admission → Breaker → Breaker
unfolding record_in
record_outcome out now adm b = record_in b.state out now adm b
