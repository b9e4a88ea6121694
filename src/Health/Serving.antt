-- ===== src/Health/Serving.antt =====
-- health/health.go: the aggregate, and when the whole server is SERVING.
use gortexa.Common.{
  String, string_eq, nat_eq, true, false, [], ◌∷◌, ◌≡◌, ◌≢◌, ◌↔◌, inl, inr, arith, refl,
  if◌then◌else◌, ltb, All, Bool-cases, ◌&&◌,
}
use gortexa.Common.Dict.{Dict}
use gortexa.Health.{
  State, healthy, degraded, unhealthy, rank, Registry, cached_snapshot, worst, worst_from, serving,
  serving_of, is_serving, status_in, status_for, draining, Probe,
}

-- No component is unhealthy; a degraded one is allowed.
abbrev pub NoneUnhealthy : Dict String State → Type 0
NoneUnhealthy = All (λ (n, s). s ≢ unhealthy)

is_serving_iff : (s : State) → (is_serving s ≡ true) ↔ (s ≢ unhealthy)
unfolding is_serving
is_serving_iff healthy = (λ h. λ e. cc, λ h. refl)
is_serving_iff degraded = (λ h. λ e. cc, λ h. refl)
is_serving_iff unhealthy = (λ h. cc, λ h. absurd (h refl))

worse-serving :
    (w s : State)
    → is_serving (if ltb (rank w) (rank s) then s else w) ≡ (is_serving w && is_serving s)
unfolding rank is_serving
worse-serving healthy healthy = refl
worse-serving healthy degraded = refl
worse-serving healthy unhealthy = refl
worse-serving degraded healthy = refl
worse-serving degraded degraded = refl
worse-serving degraded unhealthy = refl
worse-serving unhealthy healthy = refl
worse-serving unhealthy degraded = refl
worse-serving unhealthy unhealthy = refl

worst_from-serving :
    (w : State) (snap : Dict String State)
    → (is_serving (worst_from w snap) ≡ true) ↔ ((is_serving w ≡ true) × NoneUnhealthy snap)
unfolding worst_from
worst_from-serving w [] = (λ h. (h, tt), λ h. h.0)
worst_from-serving w ((n, s) ∷ snap) =
    let both = worst_from-serving (if ltb (rank w) (rank s) then s else w) snap in
    ground (arith, both, worse-serving w s, is_serving_iff s)

pub serving_of-serving : (s : State) → (serving_of s ≡ serving) ↔ (is_serving s ≡ true)
unfolding serving_of is_serving
serving_of-serving healthy = (λ h. refl, λ h. refl)
serving_of-serving degraded = (λ h. refl, λ h. refl)
serving_of-serving unhealthy = (λ h. cc, λ h. cc)

-- The overall status is SERVING exactly when the server is not draining and no component of the
-- snapshot that is served is unhealthy, so that a degraded component still serves.
pub status_for-serving :
    (p : Probe) (r : Registry)
    → ((status_for p "" r).1 ≡ serving)
      ↔ ((draining r ≡ false) × NoneUnhealthy (cached_snapshot p r).1)
unfolding status_for status_in worst
status_for-serving p r = elim (Bool-cases (draining r)) [
  | inl ends ↦ rw ends (λ h. cc, λ h. cc)
  | inr stays ↦ rw stays (
      let snap = (cached_snapshot p r).1 in
      let of_state = serving_of-serving (worst_from healthy snap) in
      let of_all = worst_from-serving healthy snap in
      (λ h. (refl, (of_all.0 (of_state.0 h)).1), λ h. of_state.1 (of_all.1 (refl, h.1))))
]
