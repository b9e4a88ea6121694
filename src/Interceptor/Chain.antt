-- ===== src/Interceptor/Chain.antt =====
-- interceptor/chain.go, recovery.go and auth.go: the stages as functions, the fixed chain of them, its
-- outermost stage and the auth stage. `C` is a context, `Q` a request, `R` a response and `W` the
-- state that handlers and stages share; a unary stage gets the method with its context.
pub mod Safety
mod Examples
use gortexa.Common.{
  ℕ, String, nat_eq, Bool, true, false, Option, none, some, List, [], ◌∷◌, ◌==◌, if◌then◌else◌,
}
use gortexa.Common.Result.{Result, ok, err}
use gortexa.Apperr.Types.{Err, Status, grpc, new, cat_internal}
use gortexa.Apperr.Code
use gortexa.Apperr.Registry.{Registry}
use gortexa.Apperr.Resolve.{Grpc, to_grpc_status}
use gortexa.Interceptor.Run.{Run, returned, panicked}

-- grpc.UnaryHandler
abbrev pub Handler : Type 0 → Type 0 → Type 0 → Type 0 → Type 0
Handler W C Q R = C → Q → W → W × Run R

-- grpc.UnaryServerInterceptor
abbrev pub Stage : Type 0 → Type 0 → Type 0 → Type 0 → Type 0
Stage W C Q R = C → Q → Handler W C Q R → W → W × Run R

-- The unary half of Set; a nil stage is `none`. The stream half has the same names.
pub record Set (S : Type 0) : Type 0 where
  pub recovery : Option S
  pub request_id : Option S
  pub logger : Option S
  pub load_shedding : Option S
  pub rate_limit : Option S
  pub circuit_breaker : Option S
  pub auth : Option S
  pub validation : Option S

-- The table of UnaryChain and of StreamChain.
unfoldable pub ordered : {S : Type 0} → Set S → List (String × Option S)
ordered s =
    ("recovery", s.recovery)
    ∷ ("requestid", s.request_id)
    ∷ ("logger", s.logger)
    ∷ ("loadshedding", s.load_shedding)
    ∷ ("ratelimit", s.rate_limit)
    ∷ ("circuitbreaker", s.circuit_breaker)
    ∷ ("auth", s.auth)
    ∷ ("validation", s.validation)
    ∷ []

unfoldable pub prepend : {S : Type 0} → S → Result String (List S) → Result String (List S)
prepend ic (err name) = err name
prepend ic (ok ics) = ok (ic ∷ ics)

-- The loop over the table: the first nil stage panics with its name.
unfoldable pub collect : {S : Type 0} → List (String × Option S) → Result String (List S)
unfolding prepend
collect [] = ok []
collect ((name, none) ∷ rest) = err name
collect ((name, some ic) ∷ rest) = prepend ic (collect rest)

unfoldable pub unary_chain : {S : Type 0} → Set S → Result String (List S)
unary_chain s = collect (ordered s)

unfoldable pub stream_chain : {S : Type 0} → Set S → Result String (List S)
stream_chain s = collect (ordered s)

module _ {W C Q R : Type 0} where
  -- The closure `run` of ChainUnary, on the stages that are left.
  unfoldable pub run_from : List (Stage W C Q R) → Handler W C Q R → Handler W C Q R
  run_from [] handler c q = handler c q
  run_from (ic ∷ ics) handler c q = ic c q (run_from ics handler)

  unfoldable pub chained : Result String (List (Stage W C Q R)) → Result String (Stage W C Q R)
  chained (err name) = err name
  chained (ok ics) = ok (λ c q handler. run_from ics handler c q)

  -- ChainUnary; `err name` is the panic on the missing stage of that name.
  unfoldable pub chain_unary : Set (Stage W C Q R) → Result String (Stage W C Q R)
  chain_unary s = chained (unary_chain s)

  -- AuthWith: the context that the authenticator returns, or its error.
  unfoldable pub auth_with : (C → Bool) → (C → Result Err C) → Stage W C Q R
  auth_with skip authenticate c q handler w =
      if skip c
      then handler c q w
      else elim (authenticate c) [ err e ↦ (w, returned none (some e)) | ok c' ↦ handler c' q w ]

-- (*status.Status).Err: nil for the code OK.
unfoldable pub status_err : Status → Option Err
status_err st = if st.code == Code.ok then none else some (grpc (some st))

module _ (g : Grpc) (default r : Registry) {A : Type 0} where
  -- The deferred function of Recovery.
  unfoldable pub recovered : Run A → Run A
  recovered panicked =
      returned none
        (status_err (to_grpc_status g default r (some (new cat_internal "internal error"))))
  recovered (returned resp none) = returned resp none
  recovered (returned resp (some e)) =
      returned resp (status_err (to_grpc_status g default r (some e)))

module _ (g : Grpc) (default r : Registry) {W C Q R : Type 0} where
  -- Recovery; `holder` is withRequestIDHolder.
  unfoldable pub recovery_stage : (C → C) → Stage W C Q R
  unfolding recovered
  recovery_stage holder c q handler w =
      let (w', result) = handler (holder c) q w in (w', recovered g default r result)
