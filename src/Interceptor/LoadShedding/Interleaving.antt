-- ===== src/Interceptor/LoadShedding/Interleaving.antt =====
-- interceptor/loadshedding.go: concurrent calls over the atomic gauge. A call adds one and holds the
-- result, later decides on it, and an admitted call releases its slot when it ends.
use gortexa.Common.{
  ℕ, zero, suc, true, Option, none, some, List, [], ◌∷◌, length, get_elem?, erase_at, count_p,
  count_p-erase_at, count_p-le-length, ◌+◌, ◌-◌, ◌≤◌, ◌≡◌, arith, if◌then◌else◌, ltb, leb, refl,
}
use gortexa.Common.Int.{ℤ, is_positive, pos_part}
use gortexa.Interceptor.LoadShedding.{over_limit}

pub record Gauge : Type 0 where
  pub inflight : ℕ
  pub pending : List ℕ  -- what Add returned to the calls that have still to decide
  pub admitted : ℕ

pub data Event : Type 0 where
  add : Event
  decide : (i : ℕ) → Event
  finish : Event

decided : ℤ → Option ℕ → ℕ → Gauge → Gauge
unfolding over_limit
decided limit none i s = s
decided limit (some n) i s =
    let rest = record s { pending = erase_at s.pending i } in
    if over_limit limit n
    then record rest { inflight = s.inflight - 1 }
    else record rest { admitted = s.admitted + 1 }

step : ℤ → Event → Gauge → Gauge
unfolding decided
step limit add s = record s { inflight = s.inflight + 1; pending = (s.inflight + 1) ∷ s.pending }
step limit (decide i) s = decided limit (get_elem? s.pending i) i s
step limit finish s =
    if ltb 0 s.admitted
    then record s { inflight = s.inflight - 1; admitted = s.admitted - 1 }
    else s

pub run : ℤ → List Event → Gauge → Gauge
run limit [] s = s
run limit (e ∷ es) s = run limit es (step limit e s)

abbrev pub idle : Gauge
idle = record { inflight = 0; pending = []; admitted = 0 }

-- The calls that will be admitted, among those that have still to decide.
abbrev winners : ℤ → Gauge → ℕ
winners limit s = count_p (λ n. leb n (pos_part limit)) s.pending

record Inv (limit : ℤ) (s : Gauge) : Type 0 where
  exact : s.inflight ≡ length s.pending + s.admitted
  room : is_positive limit ≡ true → s.admitted + winners limit s ≤ pos_part limit

length-erase_at :
    (xs : List ℕ) (i : ℕ) (x : ℕ)
    → get_elem? xs i ≡ some x
    → suc (length (erase_at xs i)) ≡ length xs
length-erase_at [] i x h = cc
length-erase_at (y ∷ xs) zero x h = refl
length-erase_at (y ∷ xs) (suc i) x h = omega (arith, length-erase_at xs i x h)

decided-Inv :
    (limit : ℤ) (found : Option ℕ) (i : ℕ) (s : Gauge)
    → get_elem? s.pending i ≡ found
    → Inv limit s
    → Inv limit (decided limit found i s)
unfolding decided
decided-Inv limit none i s h inv = inv
decided-Inv limit (some n) i s h inv = ground (
  arith,
  inv.exact,
  inv.room,
  length-erase_at s.pending i n h,
  count_p-erase_at (λ m. leb m (pos_part limit)) s.pending i n h,
)

step-Inv : (limit : ℤ) (e : Event) (s : Gauge) → Inv limit s → Inv limit (step limit e s)
unfolding step
step-Inv limit add s inv =
    ground (arith, inv.exact, inv.room, count_p-le-length (λ m. leb m (pos_part limit)) s.pending)
step-Inv limit (decide i) s inv = decided-Inv limit (get_elem? s.pending i) i s refl inv
step-Inv limit finish s inv = ground (arith, inv.exact, inv.room)

run-Inv : (limit : ℤ) (es : List Event) (s : Gauge) → Inv limit s → Inv limit (run limit es s)
unfolding run
run-Inv limit [] s inv = inv
run-Inv limit (e ∷ es) s inv = run-Inv limit es (step limit e s) (step-Inv limit e s inv)

idle-Inv : (limit : ℤ) → Inv limit idle
idle-Inv limit = ground arith

-- However the steps of concurrent calls interleave, with a positive limit at most that many calls
-- are past the shedder at once, and the gauge counts exactly the calls in progress.
pub run_bounds_admitted :
    (limit : ℤ) (es : List Event)
    → is_positive limit ≡ true
    → let s = run limit es idle in
      (s.admitted ≤ pos_part limit) × (s.inflight ≡ length s.pending + s.admitted)
run_bounds_admitted limit es h =
    let inv = run-Inv limit es idle (idle-Inv limit) in (omega (arith, inv.room h), inv.exact)
