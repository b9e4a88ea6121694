-- ===== src/Interceptor/Breaker/Examples.antt =====
-- The circuit breaker at concrete calls.
use gortexa.Common.{
  ℕ, String, string_eq, nat_eq, true, false, none, some, List, [], ◌∷◌, ◌≡◌, ◌≢◌, ◌≤◌, refl, arith,
}
use text.Mathlib.TextEquality.{eq_iff}
use gortexa.Common.Int.{pos}
use gortexa.Common.Dict.{lookup}
use gortexa.Apperr.Types.{new, cat_unavailable}
use gortexa.Apperr.Registry.{empty}
use gortexa.Apperr.Resolve.{Grpc}
use gortexa.Interceptor.Run.{Run, returned, panicked}
use gortexa.Interceptor.Breaker.{
  closed, half_open, failure, neutral, Breaker, Admission, allow, record_outcome,
}
use gortexa.Interceptor.Breaker.System.{
  Event, arrive, finish, run, fresh, live_probes, run_bounds_probes, run_frees_probes, step,
}
use gortexa.Interceptor.Breaker.Unary.{CircuitBreaker, unary, verdict}
use gortexa.Interceptor.Breaker.Unary.Laws.{at, unaries, unary_trips}

abbrev two_failures : Breaker
two_failures = (fresh 2 5 1).breaker

-- Two failures open the breaker; at time 9 a probe is let in.
abbrev probing : List Event
probing =
    arrive 1 1 ∷ arrive 1 1 ∷ finish 0 failure 2 ∷ finish 0 failure 2 ∷ arrive 9 9 ∷ arrive 9 9 ∷ []

probing_half_open : (run probing (fresh 2 5 1)).breaker.state ≡ half_open
unfolding run step allow record_outcome
probing_half_open = refl

run_bounds_probes_example :
    (live_probes (run probing (fresh 2 5 1)) ≡ (run probing (fresh 2 5 1)).breaker.probes)
    × (live_probes (run probing (fresh 2 5 1)) ≤ 1)
run_bounds_probes_example =
    run_bounds_probes 2 5 1 probing (omega arith) (omega arith) (omega arith) probing_half_open

-- The probe ends with a client's fault: its slot is free again.
abbrev probed : List Event
probed =
    arrive 1 1
    ∷ arrive 1 1
    ∷ finish 0 failure 2
    ∷ finish 0 failure 2
    ∷ arrive 9 9
    ∷ finish 0 neutral 10
    ∷ []

probed_half_open : (run probed (fresh 2 5 1)).breaker.state ≡ half_open
unfolding run step allow record_outcome
probed_half_open = refl

probed_quiet : live_probes (run probed (fresh 2 5 1)) ≡ 0
unfolding run step allow record_outcome
probed_quiet = refl

run_frees_probes_example : (allow 11 11 (run probed (fresh 2 5 1)).breaker).1.admitted ≡ true
run_frees_probes_example =
    run_frees_probes 2 5 1 probed 11 11 (omega arith) (omega arith) (omega arith) probed_half_open
      probed_quiet

abbrev old_admission : Admission
old_admission = record {
  admitted = true;
  probe = false;
  gen = 7;
  from = closed;
  to = closed;
  changed = false;
}

abbrev no_grpc : Grpc
no_grpc = record { from_error = λ e. none; with_details = λ s d. none }

abbrev limits : CircuitBreaker
limits = record {
  cfg = record { max_failures = pos 2; open_interval = pos 5; half_open_max = pos 1 };
  breakers = [];
}

abbrev served : Run ℕ
served = returned (some 7) none

abbrev crash : Run ℕ
crash = panicked

a-ne-b : ◌≢◌ {A = String} "/pkg.A" "/pkg.B"
a-ne-b e = cc ((eq_iff "/pkg.A" "/pkg.B").1 e)

-- After two panics the third call is refused.
unary_trips_example :
    (unary no_grpc empty
      (unaries no_grpc empty 2 limits "/pkg.A" (at 1 false) crash)
      "/pkg.A"
      (at 1 false)
      (λ c. c)
      served).1
    ≡ returned none (some (new cat_unavailable "circuit open"))
unfolding verdict lookup
unary_trips_example =
    unary_trips no_grpc empty 2 limits "/pkg.A" 1 false crash served refl (omega arith) refl refl
