-- ===== src/Interceptor/LoadShedding.antt =====
-- interceptor/loadshedding.go: the load shedder. Floating-point numbers are a parameter: a type, its
-- zero and the comparison `>`. The in-flight gauge is an atomic counter, so admit is two steps,
-- the increment and the decision on its result; `Interleaving` runs them concurrently.
pub mod Interleaving
pub mod Balance
mod Examples
use gortexa.Common.{
  ℕ, String, Bool, true, false, Option, none, some, ◌+◌, ◌-◌, ◌&&◌, if◌then◌else◌, ltb,
}
use gortexa.Common.Int.{ℤ, is_positive, pos_part}
use gortexa.Apperr.Types.{Err, new, cat_resource_exhausted}
use gortexa.Interceptor.Run.{Run, returned, panicked}

-- LoadSheddingConfig, less Skip; no sampler is `false`.
pub record LoadSheddingConfig (F : Type 0) : Type 0 where
  pub max_inflight : ℤ
  pub max_cpu : F
  pub has_sampler : Bool

pub record LoadShedder (F : Type 0) : Type 0 where
  pub cfg : LoadSheddingConfig F
  pub inflight : ℕ

-- NewLoadShedder
unfoldable pub new_load_shedder : {F : Type 0} → LoadSheddingConfig F → LoadShedder F
new_load_shedder cfg = record { cfg = cfg; inflight = 0 }

-- The concurrency signal, on the gauge after the increment.
unfoldable pub over_limit : ℤ → ℕ → Bool
over_limit max_inflight n = is_positive max_inflight && ltb (pos_part max_inflight) n

abbrev pub err_cpu : Err
err_cpu = new cat_resource_exhausted "load shedding: cpu"

abbrev pub err_concurrency : Err
err_concurrency = new cat_resource_exhausted "load shedding: concurrency"

module _ {F : Type 0} (zero_f : F) (gt : F → F → Bool) where
  -- cpuOverloaded; `sample` is what the sampler returns if it is asked.
  unfoldable pub cpu_overloaded : LoadShedder F → F → Bool
  cpu_overloaded s sample = gt s.cfg.max_cpu zero_f && s.cfg.has_sampler && gt sample s.cfg.max_cpu

  -- admit, with no other call between its two steps: the signal of a refusal and its error.
  unfoldable pub admit : F → LoadShedder F → LoadShedder F × Option (String × Err)
  unfolding cpu_overloaded over_limit
  admit sample s =
      if cpu_overloaded s sample
      then (s, some ("cpu", err_cpu))
      else (let s' = record s { inflight = s.inflight + 1 } in
          if over_limit s.cfg.max_inflight s'.inflight
          then (record s' { inflight = s'.inflight - 1 }, some ("inflight", err_concurrency))
          else (s', none))

  -- The release that admit returns.
  unfoldable pub release : LoadShedder F → LoadShedder F
  release s = record s { inflight = s.inflight - 1 }

  -- What Unary makes of admit's result; the deferred release runs after a panic too.
  after_admit {ℓ} :
      {R : Type ℓ}
      → LoadShedder F × Option (String × Err)
      → (LoadShedder F → LoadShedder F)
      → Run R
      → LoadShedder F × Run R × Option String
  unfolding release
  after_admit (s, some (signal, e)) meanwhile result = (s, returned none (some e), some signal)
  after_admit (s, none) meanwhile result = (release (meanwhile s), result, none)

  -- Unary: `skipped` is what Skip says of the method, the last part the signal that is counted, and
  -- `meanwhile` what other calls make of the gauge while the handler runs.
  unfoldable pub unary {ℓ} :
      {R : Type ℓ}
      → Bool
      → F
      → (LoadShedder F → LoadShedder F)
      → Run R
      → LoadShedder F
      → LoadShedder F × Run R × Option String
  unfolding admit after_admit
  unary true sample meanwhile result s = (meanwhile s, result, none)
  unary false sample meanwhile result s = after_admit (admit sample s) meanwhile result

  -- Stream: as Unary, with no response.
  unfoldable pub stream :
      Bool
      → F
      → (LoadShedder F → LoadShedder F)
      → Run (Unit {0})
      → LoadShedder F
      → LoadShedder F × Run (Unit {0}) × Option String
  unfolding unary
  stream skipped sample meanwhile result s = unary skipped sample meanwhile result s
