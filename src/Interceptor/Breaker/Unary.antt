-- ===== src/Interceptor/Breaker/Unary.antt =====
-- interceptor/circuitbreaker.go: the configured set of breakers, the verdict on a call, and the
-- unary and stream interceptors, which differ only in where they read the context. A handler is
-- given by what it does: it returns a response and an error, or it panics.
pub mod Laws
use gortexa.Common.{
  ℕ, String, nat_eq, string_eq, Bool, true, false, Option, none, some, List, [], ◌∷◌, ◌++◌, ◌==◌,
  ◌||◌, if◌then◌else◌,
}
use gortexa.Common.Dict.{Dict, lookup, insert}
use gortexa.Common.Int.{ℤ, pos, is_positive, pos_part}
use gortexa.Apperr.Code
use gortexa.Apperr.Types.{Err, new, cat_unavailable}
use gortexa.Apperr.Registry.{Registry}
use gortexa.Apperr.Resolve.{Grpc, to_grpc_status}
use gortexa.Interceptor.Run.{Run, returned, panicked}
use gortexa.Interceptor.Breaker.{
  CbState, closed, open_state, half_open, Outcome, failure, success, neutral, Breaker, Admission,
  allow, record_outcome,
}

-- CBConfig, less the logger; an int may be negative.
pub record CbConfig : Type 0 where
  pub max_failures : ℤ
  pub open_interval : ℤ
  pub half_open_max : ℤ

pub record CircuitBreaker : Type 0 where
  pub cfg : CbConfig
  pub breakers : Dict String Breaker

-- NewCircuitBreaker, with the two defaults; 5 s in nanoseconds.
unfoldable pub new_circuit_breaker : CbConfig → CircuitBreaker
new_circuit_breaker cfg = record {
  cfg = record cfg {
    half_open_max = if is_positive cfg.half_open_max then cfg.half_open_max else pos 1;
    open_interval = if is_positive cfg.open_interval then cfg.open_interval else pos 5000000000;
  };
  breakers = [];
}

abbrev pub enabled : CircuitBreaker → Bool
enabled c = is_positive c.cfg.max_failures

-- The breaker that get makes for a new method. It is made only while `enabled`.
unfoldable pub new_breaker : CbConfig → Breaker
new_breaker cfg = record {
  max_failures = pos_part cfg.max_failures;
  open_for = pos_part cfg.open_interval;
  half_open_max = pos_part cfg.half_open_max;
  state = closed;
  failures = 0;
  opened_at = 0;
  half_open_at = 0;
  probes = 0;
  gen = 0;
}

-- get: a breaker that it makes is stored by the write that follows each use.
unfoldable pub get : CircuitBreaker → String → Breaker
unfolding new_breaker
get c method = elim (lookup method c.breakers) [ some b ↦ b | none ↦ new_breaker c.cfg ]

unfoldable pub put : CircuitBreaker → String → Breaker → CircuitBreaker
put c method b = record c { breakers = insert method b c.breakers }

-- classify, on the code of the status.
unfoldable pub classify_code : ℕ → Outcome
classify_code code =
    if code == Code.unavailable || code == Code.internal || code == Code.deadline_exceeded
    then failure
    else if code == Code.canceled
        || code == Code.invalid_argument
        || code == Code.unauthenticated
        || code == Code.permission_denied
    then neutral
    else success

-- A state change that recordChange reports.
pub record Change : Type 0 where
  pub method : String
  pub from : CbState
  pub to : CbState

abbrev same_state : CbState → CbState → Bool
same_state closed closed = true
same_state open_state open_state = true
same_state half_open half_open = true
same_state _ _ = false

reported : String → CbState → CbState → List Change
reported method from to =
    if same_state from to then [] else record { method = method; from = from; to = to } ∷ []

-- The clocks and the context of one call: `now` and `stamp` for allow, `ended` for record.
pub record Times : Type 0 where
  pub now : ℕ
  pub stamp : ℕ
  pub ended : ℕ
  pub gone : Bool

module _ (g : Grpc) (default : Registry) where
  -- classify: `gone` is ctx.Err() != nil.
  unfoldable pub classify : Bool → Option Err → Outcome
  unfolding classify_code
  classify true err = neutral
  classify false none = success
  classify false (some err) = classify_code (to_grpc_status g default default (some err)).code

  -- The verdict in the deferred record: a panic leaves the zero outcome, a failure.
  unfoldable pub verdict {ℓ} : {R : Type ℓ} → Bool → Run R → Outcome
  unfolding classify
  verdict gone (returned resp err) = classify gone err
  verdict gone panicked = failure

  -- Past the admission: the handler runs, and record sees the breaker as it is by then.
  settle {ℓ} : {R : Type ℓ} → CircuitBreaker → String → Times → Admission → Run R → CircuitBreaker
  unfolding get put verdict record_outcome
  settle c method t adm result =
      put c method (record_outcome (verdict t.gone result) t.ended adm (get c method))

  -- get and allow, at the start of a call.
  unfoldable pub begin : CircuitBreaker → String → Times → CircuitBreaker × Admission
  unfolding get put
  begin c method t = let (b, adm) = allow t.now t.stamp (get c method) in (put c method b, adm)

  -- The change that record reports, from the states before and after it.
  settled : CircuitBreaker → CircuitBreaker → String → List Change
  unfolding get reported
  settled before after method = reported method (get before method).state (get after method).state

  -- Unary. `meanwhile` is what other calls make of the breakers while the handler runs.
  unfoldable pub unary {ℓ} :
      {R : Type ℓ}
      → CircuitBreaker
      → String
      → Times
      → (CircuitBreaker → CircuitBreaker)
      → Run R
      → CircuitBreaker × Run R × List Change
  unfolding begin settle settled reported
  unary c method t meanwhile result =
      if enabled c
      then (let (c₁, adm) = begin c method t in
          let c₂ = meanwhile c₁ in
          let c₃ = settle c₂ method t adm result in
          if adm.admitted
          then (
            c₃,
            result,
            (if adm.changed then reported method adm.from adm.to else []) ++ settled c₂ c₃ method,
          )
          else (c₁, returned none (some (new cat_unavailable "circuit open")), []))
      else (meanwhile c, result, [])

  -- Stream: as Unary, with no response.
  unfoldable pub stream :
      CircuitBreaker
      → String
      → Times
      → (CircuitBreaker → CircuitBreaker)
      → Run (Unit {0})
      → CircuitBreaker × Run (Unit {0}) × List Change
  unfolding unary
  stream c method t meanwhile result = unary c method t meanwhile result
