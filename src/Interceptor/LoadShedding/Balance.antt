-- ===== src/Interceptor/LoadShedding/Balance.antt =====
-- interceptor/loadshedding.go: the gauge over one call.
use gortexa.Common.{
  ℕ, String, Bool, true, false, Option, none, some, ◌+◌, ◌≡◌, arith, if◌then◌else◌, refl,
  Bool-cases, inl, inr, ◌⊎◌,
}
use gortexa.Interceptor.Run.{Run}
use gortexa.Interceptor.LoadShedding.{
  LoadShedder, cpu_overloaded, over_limit, admit, release, unary, after_admit, err_cpu,
  err_concurrency,
}

module _ {F : Type 0} (zero_f : F) (gt : F → F → Bool) where
  admit-cases :
      (sample : F) (s : LoadShedder F)
      → admit zero_f gt sample s ≡ (
          if cpu_overloaded zero_f gt s sample
          then (s, some ("cpu", err_cpu))
          else if over_limit s.cfg.max_inflight (s.inflight + 1)
          then (s, some ("inflight", err_concurrency))
          else (record s { inflight = s.inflight + 1 }, none))
  unfolding admit
  admit-cases sample s = ground arith

  -- `k` calls that start while the handler runs and have not ended when it does.
  abbrev pub others : ℕ → LoadShedder F → LoadShedder F
  others k s = record s { inflight = s.inflight + k }

  -- The signal that refuses a call, if one does: the cpu first, then the concurrency, unless Skip
  -- exempts the method.
  abbrev pub refusal : Bool → F → LoadShedder F → Option String
  refusal skipped sample s =
      if skipped
      then none
      else if cpu_overloaded zero_f gt s sample
      then some "cpu"
      else if over_limit s.cfg.max_inflight (s.inflight + 1)
      then some "inflight"
      else none

  abbrev pub is_refused : Option String → Bool
  is_refused none = false
  is_refused (some signal) = true

  -- A call is refused exactly by the signals; a refused call leaves the gauge as it was, and a call
  -- that is let in, whether its handler returns or panics, gives back the one slot that it took, so
  -- that the gauge moves by the `k` calls that started meanwhile and still run.
  pub unary_balanced :
      {R : Type 0} (skipped : Bool) (sample : F) (k : ℕ) (result : Run R) (s : LoadShedder F)
      → let (s', outcome, signal) = unary zero_f gt skipped sample (others k) result s in
        (signal ≡ refusal skipped sample s)
        × (s'.inflight ≡ s.inflight + (if is_refused signal then 0 else k))
        × ((outcome ≡ result) ⊎ (is_refused signal ≡ true))
  unfolding unary after_admit release
  unary_balanced true sample k result s = (refl, refl, inl refl)
  unary_balanced false sample k result s = elim (Bool-cases (cpu_overloaded zero_f gt s sample)) [
    | inl cpu ↦ rw (admit-cases sample s, cpu) (refl, omega arith, inr refl)
    | inr calm ↦ elim (Bool-cases (over_limit s.cfg.max_inflight (s.inflight + 1))) [
      | inl full ↦ rw (admit-cases sample s, calm, full) (refl, omega arith, inr refl)
      | inr room ↦ rw (admit-cases sample s, calm, room) (refl, omega arith, inl refl)
    ]
  ]
