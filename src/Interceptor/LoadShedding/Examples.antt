-- ===== src/Interceptor/LoadShedding/Examples.antt =====
-- The load shedder at concrete calls, with whole numbers for the floating-point ones.
use gortexa.Common.{ℕ, Bool, true, List, [], ◌∷◌, ◌+◌, ◌≡◌, ◌≤◌, refl, ltb, length}
use gortexa.Common.Int.{pos}
use gortexa.Interceptor.Run.{Run, panicked}
use gortexa.Interceptor.LoadShedding.{LoadShedder}
use gortexa.Interceptor.LoadShedding.Interleaving.{
  Event, add, decide, finish, run, idle, run_bounds_admitted,
}

abbrev gt : ℕ → ℕ → Bool
gt a b = ltb b a

abbrev shedder : LoadShedder ℕ
shedder = record {
  cfg = record { max_inflight = pos 2; max_cpu = 90; has_sampler = true };
  inflight = 1;
}

abbrev crash : Run ℕ
crash = panicked

abbrev rush : List Event
rush = add ∷ add ∷ add ∷ decide 0 ∷ decide 1 ∷ decide 0 ∷ finish ∷ []

run_bounds_admitted_example :
    let s = run (pos 2) rush idle in (s.admitted ≤ 2) × (s.inflight ≡ length s.pending + s.admitted)
run_bounds_admitted_example = run_bounds_admitted (pos 2) rush refl
