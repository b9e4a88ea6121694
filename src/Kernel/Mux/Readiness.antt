-- ===== src/Kernel/Mux/Readiness.antt =====
-- kernel/app.go and mux.go: the readiness of the HTTP endpoint and of the gRPC health service, and the
-- deadline that is cleared once.
use gortexa.Common.{
  ℕ, String, Bool, true, false, List, [], ◌∷◌, ◌≡◌, ◌↔◌, refl, arith, inl, inr, if◌then◌else◌, ltb,
  Bool-cases, if_elim, subst, sym,
}
use gortexa.Common.Dict.{Dict}
use gortexa.Health.{
  State, healthy, rank, is_serving, Registry, Probe, draining, cached_snapshot, worst, worst_from,
  serving, status_for, status_in,
}
use gortexa.Health.Serving.{serving_of-serving}
use gortexa.Kernel.Mux.{
  readyz_of, readyz_loop, handle_readyz, FirstRead, clear_once, read, reads, serve_once,
}

wrong_code : ◌≡◌ {A = ℕ} 503 200 → ⊥
wrong_code h = omega (arith, h)

readyz_of-code :
    (was : Bool) (s : State) (checks : Dict String String)
    → ((readyz_of was (s, checks)).code ≡ 200) ↔ (is_serving s ≡ true)
unfolding readyz_of
readyz_of-code was s checks = elim (Bool-cases (is_serving s)) [
  | inl up ↦ rw up (λ h. refl, λ h. refl)
  | inr down ↦ rw down (λ h. absurd (wrong_code h), λ h. cc)
]

-- The fold of the endpoint and that of the health service agree.
readyz_loop-worst_from :
    (s : State) (snap : Dict String State) → (readyz_loop s snap).0 ≡ worst_from s snap
unfolding readyz_loop worst_from
readyz_loop-worst_from s [] = refl
readyz_loop-worst_from s ((name, st) ∷ snap) =
    readyz_loop-worst_from (if ltb (rank s) (rank st) then st else s) snap

-- The HTTP endpoint answers 200 exactly when the gRPC health service answers SERVING for the whole
-- server, for the same registry and the same course of the snapshot.
pub handle_readyz-status_for :
    (p : Probe) (was : Bool) (r : Registry)
    → ((handle_readyz p was r).1.code ≡ 200) ↔ ((status_for p "" r).1 ≡ serving)
unfolding handle_readyz status_for status_in worst
handle_readyz-status_for p was r = elim (Bool-cases (draining r)) [
  | inl ends ↦ rw ends (λ h. absurd (wrong_code h), λ h. cc)
  | inr stays ↦
      let snap = (cached_snapshot p r).1 in
      let code = readyz_of-code was (readyz_loop healthy snap).0 (readyz_loop healthy snap).1 in
      let same = serving_of-serving (worst_from healthy snap) in
      let agree = readyz_loop-worst_from healthy snap in
      rw stays (
        λ h. same.1 (subst (λ s. is_serving s ≡ true) agree (code.0 h)),
        λ h. code.1 (subst (λ s. is_serving s ≡ true) (sym agree) (same.0 h)),
      )
]

abbrev IsCounted : FirstRead → Type 0
IsCounted b = b.clears ≡ (if b.cleared then 1 else 0)

clear_once-IsCounted : (b : FirstRead) → IsCounted b → IsCounted (clear_once b)
unfolding clear_once
clear_once-IsCounted b h =
    if_elim {A = FirstRead} IsCounted b.cleared (λ done. h) (λ armed. ground (arith, h, armed))

read-IsCounted : (b : FirstRead) (n : ℕ) → IsCounted b → IsCounted (read b n)
unfolding read
read-IsCounted b n h =
    if_elim {A = FirstRead} IsCounted (ltb 0 n) (λ some_read. clear_once-IsCounted b h) (λ empty. h)

reads-IsCounted : (b : FirstRead) (ns : List ℕ) → IsCounted b → IsCounted (reads b ns)
unfolding reads
reads-IsCounted b [] h = h
reads-IsCounted b (n ∷ ns) h = reads-IsCounted (read b n) ns (read-IsCounted b n h)

clears-clear_once : (b : FirstRead) → IsCounted b → (clear_once b).clears ≡ 1
unfolding clear_once
clears-clear_once b h =
    if_elim {A = FirstRead} (λ c. c.clears ≡ 1) b.cleared (λ done. ground (arith, h, done))
      (λ armed. ground (arith, h, armed))

-- However the handler reads, the deadline is cleared exactly once by the time that it returns.
pub clears-serve_once : (ns : List ℕ) → (serve_once ns).clears ≡ 1
unfolding serve_once
clears-serve_once ns =
    clears-clear_once (reads (record { cleared = false; clears = 0 }) ns)
      (reads-IsCounted (record { cleared = false; clears = 0 }) ns refl)
