-- ===== src/Interceptor/Chain/Safety.antt =====
-- interceptor/chain.go and recovery.go: what leaves the chain.
use gortexa.Common.{
  String, true, false, Option, none, some, List, [], ◌∷◌, ◌≡◌, subst, refl, map, ap, sym, ◌∙◌,
  if_elim, nat_eq, ◌==◌,
}
use gortexa.Common.Result.{Result, ok, err}
use gortexa.Apperr.Types.{Err, grpc, new, cat_internal}
use gortexa.Apperr.Registry.{Registry}
use gortexa.Apperr.Resolve.{Grpc, to_grpc_status}
use gortexa.Interceptor.Run.{Run, returned, panicked}
use gortexa.Interceptor.Chain.{
  Handler, Stage, Set, ordered, collect, prepend, unary_chain, run_from, chained, chain_unary,
  status_err, recovered, recovery_stage,
}

module _ (g : Grpc) (default r : Registry) {A : Type 0} where
  -- A result that may cross the wire: no panic, and no error but a status that the registry made.
  abbrev pub IsNormal : Run A → Type 0
  IsNormal panicked = false ≡ true
  IsNormal (returned resp none) = Unit
  IsNormal (returned resp (some e)) =
      (cause : Err) × (e ≡ grpc (some (to_grpc_status g default r (some cause))))

  status_err-IsNormal :
      (resp : Option A) (cause : Err)
      → IsNormal (returned resp (status_err (to_grpc_status g default r (some cause))))
  unfolding status_err
  status_err-IsNormal resp cause =
      if_elim {A = Option Err} (λ e. IsNormal (returned resp e))
        ((to_grpc_status g default r (some cause)).code == 0) (λ h. tt) (λ h. (cause, refl))

  recovered-IsNormal : (result : Run A) → IsNormal (recovered g default r result)
  unfolding recovered
  recovered-IsNormal panicked = status_err-IsNormal none (new cat_internal "internal error")
  recovered-IsNormal (returned resp none) = tt
  recovered-IsNormal (returned resp (some e)) = status_err-IsNormal resp e

module _ (g : Grpc) (default r : Registry) {W C Q R : Type 0} where
  -- What the chain of a set computes, if it is built.
  IsNormalChain : Result String (Stage W C Q R) → Type 0
  IsNormalChain (err name) = Unit
  IsNormalChain (ok chain) =
      (c : C) (q : Q) (handler : Handler W C Q R) (w : W)
      → IsNormal g default r (chain c q handler w).1

  -- The rest of the table.
  inner : Set (Stage W C Q R) → List (String × Option (Stage W C Q R))
  inner s =
      ("requestid", s.request_id)
      ∷ ("logger", s.logger)
      ∷ ("loadshedding", s.load_shedding)
      ∷ ("ratelimit", s.rate_limit)
      ∷ ("circuitbreaker", s.circuit_breaker)
      ∷ ("auth", s.auth)
      ∷ ("validation", s.validation)
      ∷ []

  behind_recovery :
      (holder : C → C) (inner : Result String (List (Stage W C Q R)))
      → IsNormalChain (chained (prepend (recovery_stage g default r holder) inner))
  unfolding IsNormalChain chained prepend run_from recovery_stage
  behind_recovery holder (err name) = tt
  behind_recovery holder (ok ics) =
      λ c q handler w. recovered-IsNormal g default r (run_from ics handler (holder c) q w).1

  -- With Recovery as its recovery stage, and whatever the other stages and the handler are, a chain
  -- that is built lets no panic out, and any error that leaves it is a status that the registry
  -- made of some error.
  pub chain_unary-IsNormal :
      (holder : C → C) (s : Set (Stage W C Q R)) (chain : Stage W C Q R)
      → chain_unary (record s { recovery = some (recovery_stage g default r holder) }) ≡ ok chain
      → (c : C) (q : Q) (handler : Handler W C Q R) (w : W)
      → IsNormal g default r (chain c q handler w).1
  unfolding chain_unary unary_chain ordered collect IsNormalChain inner
  chain_unary-IsNormal holder s chain built c q handler w =
      let all = subst IsNormalChain built (behind_recovery holder (collect (inner s))) in
      all c q handler w

prepend-ok :
    {S : Type 0} (ic : S) (found : Result String (List S)) (ics : List S)
    → prepend ic found ≡ ok ics
    → (rest : List S) × (found ≡ ok rest) × (ics ≡ ic ∷ rest)
unfolding prepend
prepend-ok ic (err name) ics h = cc
prepend-ok ic (ok rest) ics h = (rest, refl, cc)

collect-ok :
    {S : Type 0} (table : List (String × Option S)) (ics : List S)
    → collect table ≡ ok ics
    → map (λ (name, ic). ic) table ≡ map some ics
unfolding collect
collect-ok [] [] h = refl
collect-ok [] (i ∷ ics) h = cc
collect-ok ((name, none) ∷ table) ics h = cc
collect-ok ((name, some ic) ∷ table) ics h =
    let (rest, built, eq) = prepend-ok ic (collect table) ics h in
    ap (◌∷◌ (some ic)) (collect-ok table rest built) ∙ ap (map some) (sym eq)

-- The chain of a set, if it is built, has all eight stages, none of them missing, from the
-- outermost, recovery, to the innermost, validation.
pub unary_chain-order :
    {S : Type 0} (s : Set S) (ics : List S)
    → unary_chain s ≡ ok ics
    → map some ics ≡ (
        s.recovery ∷ s.request_id ∷ s.logger ∷ s.load_shedding ∷ s.rate_limit ∷ s.circuit_breaker
        ∷ s.auth ∷ s.validation ∷ [])
unfolding unary_chain ordered
unary_chain-order s ics h = sym (collect-ok (ordered s) ics h)
