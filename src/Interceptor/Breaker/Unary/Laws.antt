-- ===== src/Interceptor/Breaker/Unary/Laws.antt =====
-- interceptor/circuitbreaker.go: what the interceptor does with a call.
use gortexa.Common.{
  ℕ, zero, suc, String, nat_eq, string_eq, Bool, true, false, none, some, ◌==◌, ◌<◌, ◌≡◌, ◌≢◌,
  arith, refl, if◌then◌else◌, ltb, beq_refl, Bool-cases, ap, ◌∙◌, if_elim, inl, inr,
}
use text.Mathlib.TextEquality.{eq_iff}
use gortexa.Common.Dict.{lookup, lookup-insert}
use gortexa.Common.Int.{is_positive, pos_part}
use gortexa.Apperr.Types.{new, cat_unavailable}
use gortexa.Apperr.Registry.{Registry}
use gortexa.Apperr.Resolve.{Grpc}
use gortexa.Interceptor.Breaker.{failure, Breaker, Admission, allow, record_outcome}
use gortexa.Interceptor.Breaker.Episodes.{call, call-eq, calls, allow-calls_failure}
use gortexa.Interceptor.Run.{Run, returned}
use gortexa.Interceptor.Breaker.Unary.{
  CircuitBreaker, enabled, get, put, Times, begin, settle, verdict, unary, new_breaker,
}

get-put :
    (c : CircuitBreaker) (k j : String) (b : Breaker)
    → get (put c k b) j ≡ (if k == j then b else get c j)
unfolding get put
get-put c k j b = ground (arith, lookup-insert k j b c.breakers)

-- A call that starts and ends at one instant.
abbrev pub at : ℕ → Bool → Times
at now gone = record { now = now; stamp = now; ended = now; gone = gone }

get-put_self : (c : CircuitBreaker) (k : String) (b : Breaker) → get (put c k b) k ≡ b
get-put_self c k b = rw (get-put, beq_refl k)

module _ (g : Grpc) (default : Registry) where
  -- The breakers after a call that nothing else interrupts.
  unary-state {ℓ} :
      {R : Type ℓ} (c : CircuitBreaker) (method : String) (t : Times) (result : Run R)
      → enabled c ≡ true
      → let (c₁, adm) = begin g default c method t in
        (unary g default c method t (λ c'. c') result).0
        ≡ (if adm.admitted then settle g default c₁ method t adm result else c₁)
  unfolding unary
  unary-state c method t result on = elim (Bool-cases (begin g default c method t).1.admitted) [
    | inl ok ↦ rw (on, ok, unary) refl
    | inr refused ↦ rw (on, refused, unary) refl
  ]

  unary_disabled {ℓ} :
      {R : Type ℓ} (c : CircuitBreaker) (method : String) (t : Times) (result : Run R)
      → enabled c ≡ false
      → (unary g default c method t (λ c'. c') result).0 ≡ c
  unfolding unary
  unary_disabled c method t result off = rw (off, unary) refl

  get-begin :
      (c : CircuitBreaker) (method other : String) (t : Times)
      → get (begin g default c method t).0 other
        ≡ (if method == other then (allow t.now t.stamp (get c method)).0 else get c other)
  unfolding begin
  get-begin c method other t = get-put c method other (allow t.now t.stamp (get c method)).0

  get-settle {ℓ} :
      {R : Type ℓ} (c : CircuitBreaker) (method other : String) (t : Times) (adm : Admission)
      (result : Run R)
      → get (settle g default c method t adm result) other ≡ (
          if method == other
          then record_outcome (verdict g default t.gone result) t.ended adm (get c method)
          else get c other)
  unfolding settle
  get-settle c method other t adm result =
      get-put c method other
        (record_outcome (verdict g default t.gone result) t.ended adm (get c method))

  begin-admission :
      (c : CircuitBreaker) (method : String) (t : Times)
      → (begin g default c method t).1 ≡ (allow t.now t.stamp (get c method)).1
  unfolding begin
  begin-admission c method t = refl

  -- A call of one method leaves the breaker of every other method as it was.
  pub unary_isolates {ℓ} :
      {R : Type ℓ} (c : CircuitBreaker) (method other : String) (t : Times) (result : Run R)
      → method ≢ other
      → get (unary g default c method t (λ c'. c') result).0 other ≡ get c other
  unary_isolates c method other t result h = elim (Bool-cases (enabled c)) [
    | inr off ↦ rw (unary_disabled c method t result off) refl
    | inl on ↦ elim (Bool-cases (method == other)) [
      | inl same ↦ absurd (h ((eq_iff method other).0 same))
      | inr differ ↦ rw (unary-state c method t result on) (
          if_elim (λ c'. get c' other ≡ get c other) (begin g default c method t).1.admitted
            (λ _. rw (get-settle, differ, get-begin, differ) refl)
            (λ _. rw (get-begin, differ) refl))
    ]
  ]

  -- The breaker of the method after a call whose outcome is a failure: the breaker's own call.
  get-unary_failure {ℓ} :
      {R : Type ℓ} (c : CircuitBreaker) (method : String) (now : ℕ) (gone : Bool) (result : Run R)
      → enabled c ≡ true
      → verdict g default gone result ≡ failure
      → get (unary g default c method (at now gone) (λ c'. c') result).0 method
        ≡ call now failure (get c method)
  get-unary_failure c method now gone result on bad =
      let t = at now gone in
      let b = get c method in
      rw (unary-state c method t result on, call-eq now failure b, begin-admission c method t)
        (elim (Bool-cases (allow now now b).1.admitted) [
          | inl ok ↦ rw (ok, get-settle, beq_refl method, bad, get-begin, beq_refl method) refl
          | inr refused ↦ rw (refused, get-begin, beq_refl method) refl
        ])

  cfg-unary {ℓ} :
      {R : Type ℓ} (c : CircuitBreaker) (method : String) (t : Times) (result : Run R)
      → (unary g default c method t (λ c'. c') result).0.cfg ≡ c.cfg
  unfolding begin settle put
  cfg-unary c method t result = elim (Bool-cases (enabled c)) [
    | inr off ↦ rw (unary_disabled c method t result off) refl
    | inl on ↦ rw (unary-state c method t result on) (
        if_elim {A = CircuitBreaker} (λ c'. c'.cfg ≡ c.cfg) (begin g default c method t).1.admitted
          (λ _. refl) (λ _. refl))
  ]

  -- `n` calls of a method, one after the other, that end alike.
  pub unaries {ℓ} : {R : Type ℓ} → ℕ → CircuitBreaker → String → Times → Run R → CircuitBreaker
  unaries zero c method t result = c
  unaries (suc n) c method t result =
      unaries n (unary g default c method t (λ c'. c') result).0 method t result

  cfg-unaries {ℓ} :
      {R : Type ℓ} (n : ℕ) (c : CircuitBreaker) (method : String) (t : Times) (result : Run R)
      → (unaries n c method t result).cfg ≡ c.cfg
  unfolding unaries
  cfg-unaries zero c method t result = refl
  cfg-unaries (suc n) c method t result =
      cfg-unaries n (unary g default c method t (λ c'. c') result).0 method t result
      ∙ cfg-unary c method t result

  get-unaries_failure {ℓ} :
      {R : Type ℓ} (n : ℕ) (c : CircuitBreaker) (method : String) (now : ℕ) (gone : Bool)
      (result : Run R)
      → enabled c ≡ true
      → verdict g default gone result ≡ failure
      → get (unaries n c method (at now gone) result) method ≡ calls n now failure (get c method)
  unfolding unaries calls
  get-unaries_failure zero c method now gone result on bad = refl
  get-unaries_failure (suc n) c method now gone result on bad =
      let c' = (unary g default c method (at now gone) (λ c'. c') result).0 in
      get-unaries_failure n c' method now gone result
        (ap (λ cfg. is_positive cfg.max_failures) (cfg-unary c method (at now gone) result) ∙ on)
        bad
      ∙ ap (calls n now failure) (get-unary_failure c method now gone result on bad)

  unary-run {ℓ} :
      {R : Type ℓ} (c : CircuitBreaker) (method : String) (t : Times) (result : Run R)
      → enabled c ≡ true
      → (unary g default c method t (λ c'. c') result).1 ≡ (
          if (allow t.now t.stamp (get c method)).1.admitted
          then result
          else returned none (some (new cat_unavailable "circuit open")))
  unfolding unary
  unary-run c method t result on = elim (Bool-cases (begin g default c method t).1.admitted) [
    | inl ok ↦ rw (← begin-admission c method t, on, ok, unary) refl
    | inr refused ↦ rw (← begin-admission c method t, on, refused, unary) refl
  ]

  -- A method that no call has reached yet serves exactly `max_failures` consecutive calls that fail
  -- or panic at one instant: the call after `n` of them gets its handler's result while `n` is
  -- below the limit, and from then on the answer Unavailable without its handler.
  pub unary_trips {ℓ} :
      {R : Type ℓ} (n : ℕ) (c : CircuitBreaker) (method : String) (now : ℕ) (gone : Bool)
      (bad next : Run R)
      → enabled c ≡ true
      → 0 < pos_part c.cfg.open_interval
      → lookup method c.breakers ≡ none
      → verdict g default gone bad ≡ failure
      → (unary g default
          (unaries n c method (at now gone) bad)
          method
          (at now gone)
          (λ c'. c')
          next).1
        ≡ (if ltb n (pos_part c.cfg.max_failures)
            then next
            else returned none (some (new cat_unavailable "circuit open")))
  unfolding get new_breaker
  unary_trips n c method now gone bad next on some_time unseen fails =
      let c' = unaries n c method (at now gone) bad in
      let still_on =
        ap (λ cfg. is_positive cfg.max_failures) (cfg-unaries n c method (at now gone) bad) ∙ on in
      let made : get c method ≡ new_breaker c.cfg = rw (unseen, get) refl in
      rw
        (
          unary-run c' method (at now gone) next still_on,
          get-unaries_failure n c method now gone bad on fails,
          made,
          allow-calls_failure n now (new_breaker c.cfg) refl (ground arith) some_time,
        )
        (ground arith)
