-- ===== src/Interceptor/Run.antt =====
-- interceptor/: what the rest of the chain does with a call that a stage lets through.
use gortexa.Common.{Option}
use gortexa.Apperr.Types.{Err}

-- A handler returns a response and an error, or it panics; `R` is the type of a response.
pub data Run {ℓ} (R : Type ℓ) : Type ℓ where
  returned : Option R → Option Err → Run R
  panicked : Run R
