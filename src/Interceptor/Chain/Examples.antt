-- ===== src/Interceptor/Chain/Examples.antt =====
-- interceptor/chain.go at a concrete chain.
use gortexa.Common.{ℕ, suc, none, some, [], ◌∷◌, ◌≡◌, refl}
use gortexa.Common.Result.{ok}
use gortexa.Apperr.Default.{default_registry}
use gortexa.Apperr.Resolve.{Grpc}
use gortexa.Interceptor.Run.{panicked}
use gortexa.Interceptor.Chain.{
  Handler, Stage, Set, ordered, collect, prepend, unary_chain, run_from, chained, chain_unary,
  recovery_stage,
}
use gortexa.Interceptor.Chain.Safety.{IsNormal, chain_unary-IsNormal}

-- A FromError that knows no status.
abbrev plain_grpc : Grpc
plain_grpc = record { from_error = λ e. none; with_details = λ s d. none }

-- A stage that counts its calls, and a handler that panics.
abbrev counts : Stage ℕ ℕ ℕ ℕ
counts c q handler w = handler c q (suc w)

abbrev crash : Handler ℕ ℕ ℕ ℕ
crash c q w = (w, panicked)

abbrev set : Set (Stage ℕ ℕ ℕ ℕ)
set = record {
  recovery = none;
  request_id = some counts;
  logger = some counts;
  load_shedding = some counts;
  rate_limit = some counts;
  circuit_breaker = some counts;
  auth = some counts;
  validation = some counts;
}

abbrev recovery : Stage ℕ ℕ ℕ ℕ
recovery = recovery_stage plain_grpc default_registry default_registry (λ c. c)

abbrev chain : Stage ℕ ℕ ℕ ℕ
chain c q handler =
    run_from (recovery ∷ counts ∷ counts ∷ counts ∷ counts ∷ counts ∷ counts ∷ counts ∷ []) handler
      c q

builds : chain_unary (record set { recovery = some recovery }) ≡ ok chain
unfolding chain_unary unary_chain ordered collect prepend chained
builds = refl

chain_unary-IsNormal_example :
    IsNormal plain_grpc default_registry default_registry (chain 0 0 crash 0).1
chain_unary-IsNormal_example =
    chain_unary-IsNormal plain_grpc default_registry default_registry (λ c. c) set chain builds 0 0
      crash 0

abbrev numbered : Set ℕ
numbered = record {
  recovery = some 1;
  request_id = some 2;
  logger = some 3;
  load_shedding = some 4;
  rate_limit = some 5;
  circuit_breaker = some 6;
  auth = some 7;
  validation = some 8;
}
