-- ===== src/Interceptor/Breaker/System.antt =====
-- interceptor/circuitbreaker.go: a breaker with its concurrent calls, in any interleaving. The
-- calls in flight hold the admissions that allow gave them; a call arrives, or one of those in
-- flight ends with an outcome.
use gortexa.Common.{
  ℕ, suc, nat_eq, Bool, true, false, Option, none, some, List, [], ◌∷◌, length, get_elem?, erase_at,
  count_p, All, All-erase_at, count_p-erase_at, ◌+◌, ◌-◌, subst, ◌≤◌, ◌<◌, ◌^◌, ◌≡◌, arith, ◌==◌,
  ◌&&◌, refl, if◌then◌else◌, nat_beq_iff, if_elim, ltb→lt, ltb, leb,
}
use gortexa.Interceptor.Breaker.{
  CbState, closed, open_state, half_open, Outcome, Breaker, Admission, allow, allow_in, episode,
  record_outcome, u64,
}

pub data Event : Type 0 where
  arrive : (now stamp : ℕ) → Event
  finish : (i : ℕ) → Outcome → (now : ℕ) → Event

pub record Calls : Type 0 where
  pub breaker : Breaker
  pub flight : List Admission

arrived : Breaker × Admission → List Admission → Calls
arrived (b, adm) flight = record {
  breaker = b;
  flight = if adm.admitted then adm ∷ flight else flight;
}

finished : Option Admission → ℕ → Outcome → ℕ → Calls → Calls
finished none i out now s = s
finished (some adm) i out now s = record {
  breaker = record_outcome out now adm s.breaker;
  flight = erase_at s.flight i;
}

unfoldable pub step : Event → Calls → Calls
unfolding arrived finished
step (arrive now stamp) s = arrived (allow now stamp s.breaker) s.flight
step (finish i out now) s = finished (get_elem? s.flight i) i out now s

unfoldable pub run : List Event → Calls → Calls
run [] s = s
run (e ∷ es) s = run es (step e s)

-- A probe of the episode `g`.
abbrev pub is_probe_of : ℕ → Admission → Bool
is_probe_of g adm = adm.probe && adm.gen == g

-- The probes of the current episode that are in flight.
abbrev pub live_probes : Calls → ℕ
live_probes s = count_p (is_probe_of s.breaker.gen) s.flight

-- A breaker as CircuitBreaker.get makes it, with no call in flight.
abbrev pub fresh : (max_failures open_for half_open_max : ℕ) → Calls
fresh max_failures open_for half_open_max = record {
  breaker = record {
    max_failures = max_failures;
    open_for = open_for;
    half_open_max = half_open_max;
    state = closed;
    failures = 0;
    opened_at = 0;
    half_open_at = 0;
    probes = 0;
    gen = 0;
  };
  flight = [];
}

-- What holds after `n` events, while the uint64 episode counter has not wrapped.
record Inv (n : ℕ) (s : Calls) : Type 0 where
  few_episodes : s.breaker.gen ≤ n
  from_the_past : All (λ adm. adm.gen ≤ s.breaker.gen) s.flight
  counted : s.breaker.state ≡ half_open → live_probes s ≡ s.breaker.probes
  bounded : s.breaker.state ≡ half_open → s.breaker.probes ≤ s.breaker.half_open_max
  below_trip : s.breaker.state ≡ closed → s.breaker.failures < s.breaker.max_failures
  some_probe : 1 ≤ s.breaker.half_open_max
  some_failure : 1 ≤ s.breaker.max_failures

All-weaken :
    (g h : ℕ) (l : List Admission) → g ≤ h → All (λ adm. adm.gen ≤ g) l → All (λ adm. adm.gen ≤ h) l
All-weaken g h [] le a = tt
All-weaken g h (x ∷ l) le a = (omega (arith, a.0), All-weaken g h l le a.1)

-- No call in flight is a probe of an episode that has not begun.
no_probe_ahead :
    (g h : ℕ) (l : List Admission)
    → g < h
    → All (λ adm. adm.gen ≤ g) l
    → count_p (is_probe_of h) l ≡ 0
no_probe_ahead g h [] lt a = refl
no_probe_ahead g h (x ∷ l) lt a = ground (arith, no_probe_ahead g h l lt a.1, nat_beq_iff x.gen h)

-- What allow does: it keeps the caller out, lets it by, joins it to the episode or begins one.
data AllowCase (b b' : Breaker) (adm : Admission) : Type 0 where
  kept_out : adm.admitted ≡ false → b' ≡ b → AllowCase b b' adm
  let_by :
      adm.admitted ≡ true
      → adm.probe ≡ false
      → adm.gen ≡ b.gen
      → b' ≡ b
      → b.state ≡ closed
      → AllowCase b b' adm
  joined :
      adm.admitted ≡ true
      → adm.probe ≡ true
      → adm.gen ≡ b.gen
      → b' ≡ record b { probes = b.probes + 1 }
      → b.state ≡ half_open
      → b.probes < b.half_open_max
      → AllowCase b b' adm
  began :
      (stamp : ℕ)
      → adm.admitted ≡ true
      → adm.probe ≡ true
      → adm.gen ≡ u64 (b.gen + 1)
      → b' ≡ episode stamp b
      → AllowCase b b' adm

allow_in-AllowCase :
    (t : CbState) (now stamp : ℕ) (b : Breaker)
    → b.state ≡ t
    → AllowCase b (allow_in t now stamp b).0 (allow_in t now stamp b).1
unfolding allow_in
allow_in-AllowCase closed now stamp b e = let_by refl refl refl refl e
allow_in-AllowCase open_state now stamp b e =
    if_elim {A = Breaker × Admission} (λ r. AllowCase b r.0 r.1)
      (leb (b.opened_at + b.open_for) now) (λ _. began stamp refl refl refl refl)
      (λ _. kept_out refl refl)
allow_in-AllowCase half_open now stamp b e =
    if_elim {A = Breaker × Admission} (λ r. AllowCase b r.0 r.1) (ltb b.probes b.half_open_max)
      (λ room. joined refl refl refl refl e (ltb→lt _ _ room))
      λ _.
        if_elim {A = Breaker × Admission} (λ r. AllowCase b r.0 r.1)
          (leb (b.half_open_at + b.open_for) now) (λ _. began stamp refl refl refl refl)
          (λ _. kept_out refl refl)

module _ (out : Outcome) (now : ℕ) (adm : Admission) (b : Breaker) where
  gen-record_outcome : b.gen + 1 < 2 ^ 64 → b.gen ≤ (record_outcome out now adm b).gen
  unfolding record_outcome
  gen-record_outcome h = ground arith

  record_outcome_gen-le : (record_outcome out now adm b).gen ≤ b.gen + 1
  unfolding record_outcome
  record_outcome_gen-le = ground arith

  -- A breaker that record leaves half-open was in the same episode, and a slot is free again
  -- exactly if the call was one of its probes.
  probes-record_outcome :
      (record_outcome out now adm b).state ≡ half_open
      → (b.state ≡ half_open)
        × ((record_outcome out now adm b).gen ≡ b.gen)
        × ((record_outcome out now adm b).probes
            ≡ b.probes - (if is_probe_of b.gen adm then 1 else 0))
  unfolding record_outcome
  probes-record_outcome h = ground arith

  limits-record_outcome :
      ((record_outcome out now adm b).half_open_max ≡ b.half_open_max)
      × ((record_outcome out now adm b).max_failures ≡ b.max_failures)
  unfolding record_outcome
  limits-record_outcome = ground arith

  failures-record_outcome :
      1 ≤ b.max_failures
      → (b.state ≡ closed → b.failures < b.max_failures)
      → (record_outcome out now adm b).state ≡ closed
      → (record_outcome out now adm b).failures < (record_outcome out now adm b).max_failures
  unfolding record_outcome
  failures-record_outcome some_failure below h = ground arith

module _ (n : ℕ) (s : Calls) (inv : Inv n s) (small : suc n < 2 ^ 64) where
  open s use {breaker as b, flight}

  later : Inv (suc n) s
  later = record {
    few_episodes = omega (arith, inv.few_episodes);
    from_the_past = inv.from_the_past;
    counted = inv.counted;
    bounded = inv.bounded;
    below_trip = inv.below_trip;
    some_probe = inv.some_probe;
    some_failure = inv.some_failure;
  }

  arrived-Inv :
      (b' : Breaker) (adm : Admission) → AllowCase b b' adm → Inv (suc n) (arrived (b', adm) flight)
  unfolding arrived episode
  arrived-Inv b' adm (kept_out out same) = rw (same, out) later
  arrived-Inv b' adm (let_by ok plain here same e) =
      rw (same, ok)
        record {
          few_episodes = omega (arith, inv.few_episodes);
          from_the_past = (omega (arith, here), inv.from_the_past);
          counted = ground arith;
          bounded = inv.bounded;
          below_trip = inv.below_trip;
          some_probe = inv.some_probe;
          some_failure = inv.some_failure;
        }
  arrived-Inv b' adm (joined ok probe here same e room) =
      rw (same, ok)
        record {
          few_episodes = omega (arith, inv.few_episodes);
          from_the_past = (omega (arith, here), inv.from_the_past);
          counted = ground (arith, inv.counted, nat_beq_iff adm.gen b.gen);
          bounded = ground arith;
          below_trip = ground arith;
          some_probe = inv.some_probe;
          some_failure = inv.some_failure;
        }
  arrived-Inv b' adm (began stamp ok probe here same) =
      let next : u64 (b.gen + 1) ≡ b.gen + 1 = omega (arith, inv.few_episodes) in
      rw (same, ok)
        record {
          few_episodes = omega (arith, inv.few_episodes);
          from_the_past = (
            omega (arith, here),
            All-weaken b.gen (u64 (b.gen + 1)) flight (omega arith) inv.from_the_past,
          );
          counted = ground (
            arith,
            no_probe_ahead b.gen (u64 (b.gen + 1)) flight (omega arith) inv.from_the_past,
            nat_beq_iff adm.gen (u64 (b.gen + 1)),
          );
          bounded = ground (arith, inv.some_probe);
          below_trip = ground arith;
          some_probe = inv.some_probe;
          some_failure = inv.some_failure;
        }

  finished-Inv :
      (i : ℕ) (out : Outcome) (now : ℕ) (found : Option Admission)
      → get_elem? flight i ≡ found
      → Inv (suc n) (finished found i out now s)
  unfolding finished
  finished-Inv i out now none h = later
  finished-Inv i out now (some adm) h =
      let b' = record_outcome out now adm b in
      let up : b.gen ≤ b'.gen =
        gen-record_outcome out now adm b (omega (arith, inv.few_episodes)) in
      record {
        few_episodes = ground (arith, record_outcome_gen-le out now adm b, inv.few_episodes);
        from_the_past =
            All-weaken b.gen b'.gen (erase_at flight i) up
              (All-erase_at (λ a. a.gen ≤ b.gen) flight i inv.from_the_past);
        counted = λ still.
            let (was, same, freed) = probes-record_outcome out now adm b still in
            rw same (
              omega (
                arith,
                freed,
                inv.counted was,
                count_p-erase_at (is_probe_of b.gen) flight i adm h,
              ));
        bounded = λ still.
            let (was, same, freed) = probes-record_outcome out now adm b still in
            omega (arith, inv.bounded was, freed, limits-record_outcome out now adm b);
        below_trip = failures-record_outcome out now adm b inv.some_failure inv.below_trip;
        some_probe = omega (arith, inv.some_probe, limits-record_outcome out now adm b);
        some_failure = omega (arith, inv.some_failure, limits-record_outcome out now adm b);
      }

step-Inv : (n : ℕ) (e : Event) (s : Calls) → Inv n s → suc n < 2 ^ 64 → Inv (suc n) (step e s)
unfolding step allow
step-Inv n (arrive now stamp) s inv small =
    arrived-Inv n s inv small (allow now stamp s.breaker).0 (allow now stamp s.breaker).1
      (allow_in-AllowCase s.breaker.state now stamp s.breaker refl)
step-Inv n (finish i out now) s inv small =
    finished-Inv n s inv small i out now (get_elem? s.flight i) refl

run-Inv :
    (n : ℕ) (es : List Event) (s : Calls)
    → Inv n s
    → n + length es < 2 ^ 64
    → Inv (n + length es) (run es s)
unfolding run
run-Inv n [] s inv small = subst (λ k. Inv k s) (omega arith) inv
run-Inv n (e ∷ es) s inv small =
    subst (λ k. Inv k (run es (step e s))) (omega arith)
      (run-Inv (suc n) es (step e s) (step-Inv n e s inv (omega arith)) (omega arith))

fresh-Inv : (m o p : ℕ) → 0 < m → 0 < p → Inv 0 (fresh m o p)
fresh-Inv m o p h k = record {
  few_episodes = omega arith;
  from_the_past = tt;
  counted = λ e. cc;
  bounded = λ e. cc;
  below_trip = λ e. h;
  some_probe = k;
  some_failure = h;
}

finished_limits :
    (found : Option Admission) (i : ℕ) (out : Outcome) (now : ℕ) (s : Calls)
    → ((finished found i out now s).breaker.half_open_max ≡ s.breaker.half_open_max)
      × ((finished found i out now s).breaker.max_failures ≡ s.breaker.max_failures)
unfolding finished
finished_limits none i out now s = (refl, refl)
finished_limits (some adm) i out now s = limits-record_outcome out now adm s.breaker

step_limits :
    (e : Event) (s : Calls)
    → ((step e s).breaker.half_open_max ≡ s.breaker.half_open_max)
      × ((step e s).breaker.max_failures ≡ s.breaker.max_failures)
unfolding step allow
step_limits (arrive now stamp) s = ground arith
step_limits (finish i out now) s = finished_limits (get_elem? s.flight i) i out now s

run_limits :
    (es : List Event) (s : Calls)
    → ((run es s).breaker.half_open_max ≡ s.breaker.half_open_max)
      × ((run es s).breaker.max_failures ≡ s.breaker.max_failures)
unfolding run
run_limits [] s = (refl, refl)
run_limits (e ∷ es) s = omega (arith, run_limits es (step e s), step_limits e s)

-- However calls arrive and end, a half-open breaker has at most `half_open_max` probes of its
-- episode in flight, and its counter is their number. The runs considered have fewer than 2 ^ 64
-- events, so that the episode counter does not wrap.
pub run_bounds_probes :
    (max_failures open_for half_open_max : ℕ) (es : List Event)
    → 0 < max_failures
    → 0 < half_open_max
    → length es < 2 ^ 64
    → (run es (fresh max_failures open_for half_open_max)).breaker.state ≡ half_open
    → let s = run es (fresh max_failures open_for half_open_max) in
      (live_probes s ≡ s.breaker.probes) × (live_probes s ≤ half_open_max)
run_bounds_probes m o p es h k small e =
    let inv = run-Inv 0 es (fresh m o p) (fresh-Inv m o p h k) (omega arith) in
    let (probe_limit, failure_limit) = run_limits es (fresh m o p) in
    (inv.counted e, omega (arith, inv.counted e, inv.bounded e))

-- After any such run, a half-open breaker whose probes have all ended admits the next caller: a slot
-- that was taken is given back, whatever the outcome.
pub run_frees_probes :
    (max_failures open_for half_open_max : ℕ) (es : List Event) (now stamp : ℕ)
    → 0 < max_failures
    → 0 < half_open_max
    → length es < 2 ^ 64
    → (run es (fresh max_failures open_for half_open_max)).breaker.state ≡ half_open
    → live_probes (run es (fresh max_failures open_for half_open_max)) ≡ 0
    → (allow now stamp (run es (fresh max_failures open_for half_open_max)).breaker).1.admitted
      ≡ true
unfolding allow
run_frees_probes m o p es now stamp h k small e quiet =
    let inv = run-Inv 0 es (fresh m o p) (fresh-Inv m o p h k) (omega arith) in
    ground (arith, inv.counted e, inv.some_probe)
