-- ===== src/Kernel/Lifecycle/Budget.antt =====
-- kernel/app.go: how many steps Shutdown takes.
use gortexa.Common.{
  ℕ, suc, Bool, true, false, Option, List, [], ◌∷◌, ◌+◌, ◌-◌, ◌≤◌, ◌≡◌, refl, ap, if◌then◌else◌,
  length, ltb, arith, ◌*◌, ◌||◌, subst, Bool-cases, if_elim, inl, inr,
}
use gortexa.Kernel.Lifecycle.{
  Hook, Phase, idle, drained, stopping, waiting, marked, conn_closed, flushing, finished, App,
  halted, stop_launched, modify_at, LoopbackError, loopback, claim, start_serving, stop_extra,
  flush, advance, advance_from, wait_for, Event, call_loopback, claim_extra, serve_extra,
  advance_shutdown, deadline_passes, step, run, new_app, fresh_extras,
}
use gortexa.Kernel.Lifecycle.Release.{length-modify_at, wait_for-keeps}

-- The steps that are left, with so many secondary listeners and hooks.
abbrev remaining : Phase → ℕ → ℕ → ℕ
remaining idle e h = 6 + 2 * e + h
remaining drained e h = 5 + 2 * e + h
remaining (stopping i) e h = 4 + 2 * (e - i) + h
remaining (waiting i) e h = 5 + 2 * (e - suc i) + h
remaining (marked c) e h = 3 + h
remaining conn_closed e h = 2 + h
remaining flushing e h = 1 + h
remaining finished e h = 0

abbrev left : App → ℕ
left a = remaining a.phase (length a.extras) (length a.hooks_left)

-- The steps of Shutdown at which the server that it may wait for is idle or the deadline has passed;
-- `past` is whether it has before the first.
abbrev pub progress : Bool → List Event → ℕ
progress past [] = 0
progress past (call_loopback dials ∷ es) = progress past es
progress past (claim_extra i ∷ es) = progress past es
progress past (serve_extra i ∷ es) = progress past es
progress past (deadline_passes ∷ es) = progress true es
progress past (advance_shutdown is_idle ∷ es) =
    (if is_idle || past then 1 else 0) + progress past es

left-flush :
    (hs : List Hook) (a : App)
    → a.hooks_left ≡ hs
    → a.phase ≡ flushing
    → left (flush hs a) ≤ length hs
unfolding flush
left-flush [] a k same = omega arith
left-flush (h ∷ hs) a k same = rw same (omega arith)

left-wait_for :
    (is_idle : Bool) (next a : App) (n : ℕ)
    → left a ≡ n
    → left next ≤ n - 1
    → left (wait_for is_idle next a) ≤ n - (if is_idle || a.past_deadline then 1 else 0)
unfolding wait_for
left-wait_for is_idle next a n same less = elim (Bool-cases (is_idle || a.past_deadline)) [
  | inl ends ↦ rw ends less
  | inr waits ↦ rw waits (omega (arith, same))
]

-- What is left at a phase.
left-at :
    (p : Phase) (a : App)
    → a.phase ≡ p
    → left a ≡ remaining p (length a.extras) (length a.hooks_left)
left-at p a same = ap (λ q. remaining q (length a.extras) (length a.hooks_left)) same

one_at_most : (b : Bool) (m n : ℕ) → m ≤ n - 1 → m ≤ n - (if b then 1 else 0)
one_at_most true m n h = h
one_at_most false m n h = omega (arith, h)

left-advance_from :
    (is_idle : Bool) (p : Phase) (a : App)
    → a.phase ≡ p
    → left (advance_from is_idle p a)
      ≤ remaining p (length a.extras) (length a.hooks_left)
        - (if is_idle || a.past_deadline then 1 else 0)
unfolding advance_from
left-advance_from is_idle idle a same =
    one_at_most (is_idle || a.past_deadline) (5 + 2 * length a.extras + length a.hooks_left)
      (6 + 2 * length a.extras + length a.hooks_left) (omega arith)
left-advance_from is_idle drained a same =
    left-wait_for is_idle (record a { http_down = true; phase = stopping 0 }) a
      (5 + 2 * length a.extras + length a.hooks_left) (left-at drained a same) (omega arith)
left-advance_from is_idle (stopping i) a same =
    one_at_most (is_idle || a.past_deadline) (left (advance_from is_idle (stopping i) a))
      (4 + 2 * (length a.extras - i) + length a.hooks_left)
      (elim (Bool-cases (ltb i (length a.extras))) [
        | inl more ↦ rw (more, length-modify_at stop_extra i a.extras) (ground (arith, more))
        | inr done ↦ rw done (omega arith)
      ])
left-advance_from is_idle (waiting i) a same =
    left-wait_for is_idle (record a { phase = stopping (suc i) }) a
      (5 + 2 * (length a.extras - suc i) + length a.hooks_left) (left-at (waiting i) a same)
      (omega arith)
left-advance_from is_idle (marked c) a same =
    one_at_most (is_idle || a.past_deadline) (2 + length a.hooks_left) (3 + length a.hooks_left)
      (omega arith)
left-advance_from is_idle conn_closed a same =
    left-wait_for is_idle
      (record a { grpc = if is_idle then halted else stop_launched; phase = flushing }) a
      (2 + length a.hooks_left) (left-at conn_closed a same) (omega arith)
left-advance_from is_idle flushing a same =
    one_at_most (is_idle || a.past_deadline) (left (flush a.hooks_left a)) (1 + length a.hooks_left)
      (omega (arith, left-flush a.hooks_left a refl same))
left-advance_from is_idle finished a same = rw same (omega arith)

past-flush : (hs : List Hook) (a : App) → (flush hs a).past_deadline ≡ a.past_deadline
unfolding flush
past-flush [] a = refl
past-flush (h ∷ hs) a = refl

past-advance_from :
    (is_idle : Bool) (p : Phase) (a : App)
    → (advance_from is_idle p a).past_deadline ≡ a.past_deadline
unfolding advance_from
past-advance_from is_idle idle a = refl
past-advance_from is_idle drained a =
    wait_for-keeps (λ b. b.past_deadline ≡ a.past_deadline) is_idle
      (record a { http_down = true; phase = stopping 0 }) a refl refl
past-advance_from is_idle (stopping i) a =
    if_elim {A = App} (λ b. b.past_deadline ≡ a.past_deadline) (ltb i (length a.extras))
      (λ more. refl) (λ done. refl)
past-advance_from is_idle (waiting i) a =
    wait_for-keeps (λ b. b.past_deadline ≡ a.past_deadline) is_idle
      (record a { phase = stopping (suc i) }) a refl refl
past-advance_from is_idle (marked c) a = refl
past-advance_from is_idle conn_closed a =
    wait_for-keeps (λ b. b.past_deadline ≡ a.past_deadline) is_idle
      (record a { grpc = if is_idle then halted else stop_launched; phase = flushing }) a refl refl
past-advance_from is_idle flushing a = past-flush a.hooks_left a
past-advance_from is_idle finished a = refl

past-loopback : (dials : Bool) (a : App) → (loopback dials a).1.past_deadline ≡ a.past_deadline
unfolding loopback
past-loopback dials a =
    if_elim {A = Option LoopbackError × App} (λ out. out.1.past_deadline ≡ a.past_deadline)
      a.loopback_closed (λ c. refl)
      (λ o.
        if_elim {A = Option LoopbackError × App} (λ out. out.1.past_deadline ≡ a.past_deadline)
          a.loopback_init (λ i. refl) (λ n. refl))

left-loopback : (dials : Bool) (a : App) → left (loopback dials a).1 ≡ left a
unfolding loopback
left-loopback dials a =
    if_elim {A = Option LoopbackError × App} (λ out. left out.1 ≡ left a) a.loopback_closed
      (λ c. refl)
      (λ o.
        if_elim {A = Option LoopbackError × App} (λ out. left out.1 ≡ left a) a.loopback_init
          (λ i. refl) (λ n. refl))

left-run : (es : List Event) (a : App) → left (run es a) ≤ left a - progress a.past_deadline es
unfolding run step advance
left-run [] a = omega arith
left-run (call_loopback dials ∷ es) a =
    let a' = (loopback dials a).1 in
    let rest =
      subst (λ past. left (run es a') ≤ left a' - progress past es) (past-loopback dials a)
        (left-run es a') in
    omega (arith, left-loopback dials a, rest)
left-run (claim_extra i ∷ es) a =
    subst
      (λ n.
        left (run es (record a { extras = modify_at i claim a.extras }))
        ≤ remaining a.phase n (length a.hooks_left) - progress a.past_deadline es)
      (length-modify_at claim i a.extras)
      (left-run es (record a { extras = modify_at i claim a.extras }))
left-run (serve_extra i ∷ es) a =
    subst
      (λ n.
        left (run es (record a { extras = modify_at i start_serving a.extras }))
        ≤ remaining a.phase n (length a.hooks_left) - progress a.past_deadline es)
      (length-modify_at start_serving i a.extras)
      (left-run es (record a { extras = modify_at i start_serving a.extras }))
left-run (deadline_passes ∷ es) a = left-run es (record a { past_deadline = true })
left-run (advance_shutdown is_idle ∷ es) a =
    let a' = advance_from is_idle a.phase a in
    let rest =
      subst (λ past. left (run es a') ≤ left a' - progress past es)
        (past-advance_from is_idle a.phase a) (left-run es a') in
    omega (arith, left-advance_from is_idle a.phase a refl, rest)

length-fresh_extras : (provided : List Bool) → length (fresh_extras provided) ≡ length provided
unfolding fresh_extras
length-fresh_extras [] = refl
length-fresh_extras (p ∷ ps) = ap suc (length-fresh_extras ps)

positive : (n : ℕ) → suc n ≤ 0 → ⊥
positive n h = omega (arith, h)

none_left : (p : Phase) (e h : ℕ) → remaining p e h ≤ 0 → p ≡ finished
none_left idle e h k = absurd (positive (5 + 2 * e + h) (omega (arith, k)))
none_left drained e h k = absurd (positive (4 + 2 * e + h) (omega (arith, k)))
none_left (stopping i) e h k = absurd (positive (3 + 2 * (e - i) + h) (omega (arith, k)))
none_left (waiting i) e h k = absurd (positive (4 + 2 * (e - suc i) + h) (omega (arith, k)))
none_left (marked c) e h k = absurd (positive (2 + h) (omega (arith, k)))
none_left conn_closed e h k = absurd (positive (1 + h) (omega (arith, k)))
none_left flushing e h k = absurd (positive h (omega (arith, k)))
none_left finished e h k = refl

-- Shutdown returns, given enough steps: six, two for each secondary listener and one for each hook,
-- whatever else happens between them. A step counts when the server that Shutdown may be waiting for
-- is idle, or when its context is done by then: past the deadline no server can hold it up. A hook is
-- one step, so it is taken to return.
pub run-finished :
    (provided : List Bool) (hooks : List Hook) (es : List Event)
    → 6 + 2 * length provided + length hooks ≤ progress false es
    → (run es (new_app provided hooks)).phase ≡ finished
unfolding new_app
run-finished provided hooks es enough =
    let a = run es (new_app provided hooks) in
    none_left a.phase (length a.extras) (length a.hooks_left)
      (omega (arith, left-run es (new_app provided hooks), length-fresh_extras provided, enough))
