-- ===== src/Kernel/Options/Accepts.antt =====
-- kernel/app.go: the chain and the wraps of an app that New returns.
use gortexa.Common.{
  Bool, true, false, Option, none, some, List, [], ◌∷◌, ◌≡◌, refl, subst, inl, inr, if◌then◌else◌,
}
use gortexa.Common.Result.{Result, ok, err, Result-cases}
use gortexa.Interceptor.Chain.{Set, unary_chain, stream_chain}
use gortexa.Kernel.Lifecycle.{App}
use gortexa.Kernel.Options.{
  AppOption, with_interceptors, without_interceptors, with_gateway, with_mcp_handler,
  with_http_wrap, with_shutdown_hook, with_listener, AppConfig, NewError, apply_option,
  apply_options, empty_config, build_chain, build_listeners, new,
}

module _ {U V H : Type 0} where
  -- The set that the options give, the last one where there are several.
  abbrev pub last_set : Option (Set U × Set V) → List (AppOption U V H) → Option (Set U × Set V)
  last_set s [] = s
  last_set s (with_interceptors u v ∷ os) = last_set (some (u, v)) os
  last_set s (without_interceptors ∷ os) = last_set s os
  last_set s (with_gateway h ∷ os) = last_set s os
  last_set s (with_mcp_handler h ∷ os) = last_set s os
  last_set s (with_http_wrap mw ∷ os) = last_set s os
  last_set s (with_shutdown_hook fn ∷ os) = last_set s os
  last_set s (with_listener l ∷ os) = last_set s os

  -- Whether the options do without a chain.
  abbrev pub opts_out : Bool → List (AppOption U V H) → Bool
  opts_out b [] = b
  opts_out b (with_interceptors u v ∷ os) = opts_out b os
  opts_out b (without_interceptors ∷ os) = opts_out true os
  opts_out b (with_gateway h ∷ os) = opts_out b os
  opts_out b (with_mcp_handler h ∷ os) = opts_out b os
  opts_out b (with_http_wrap mw ∷ os) = opts_out b os
  opts_out b (with_shutdown_hook fn ∷ os) = opts_out b os
  opts_out b (with_listener l ∷ os) = opts_out b os

  interceptors-apply_options :
      (os : List (AppOption U V H)) (c : AppConfig U V H)
      → ((apply_options os c).interceptors ≡ last_set c.interceptors os)
        × ((apply_options os c).no_interceptors ≡ opts_out c.no_interceptors os)
  unfolding apply_options apply_option
  interceptors-apply_options [] c = (refl, refl)
  interceptors-apply_options (with_interceptors u v ∷ os) c =
      interceptors-apply_options os (apply_option (with_interceptors u v) c)
  interceptors-apply_options (without_interceptors ∷ os) c =
      interceptors-apply_options os (apply_option without_interceptors c)
  interceptors-apply_options (with_gateway h ∷ os) c =
      interceptors-apply_options os (apply_option (with_gateway h) c)
  interceptors-apply_options (with_mcp_handler h ∷ os) c =
      interceptors-apply_options os (apply_option (with_mcp_handler h) c)
  interceptors-apply_options (with_http_wrap mw ∷ os) c =
      interceptors-apply_options os (apply_option (with_http_wrap mw) c)
  interceptors-apply_options (with_shutdown_hook fn ∷ os) c =
      interceptors-apply_options os (apply_option (with_shutdown_hook fn) c)
  interceptors-apply_options (with_listener l ∷ os) c =
      interceptors-apply_options os (apply_option (with_listener l) c)

-- The stages of a server: those of its set, none missing, or none at all where it opts out.
abbrev IsChainOf : {U V : Type 0} → Option (Set U × Set V) → List U × List V → Type 0
IsChainOf none chain = ⊥
IsChainOf (some (u, v)) chain = (unary_chain u ≡ ok chain.0) × (stream_chain v ≡ ok chain.1)

abbrev pub IsGoverned :
    {U V : Type 0} → Option (Set U × Set V) → Bool → Result NewError (List U × List V) → Type 0
IsGoverned s without (err e) = Unit
IsGoverned s without (ok chain) =
    if without then (s ≡ none) × (chain ≡ ([], [])) else IsChainOf s chain

build_chain-IsGoverned :
    {U V : Type 0} (s : Option (Set U × Set V)) (without : Bool)
    → IsGoverned s without (build_chain s without)
unfolding build_chain
build_chain-IsGoverned none true = (refl, refl)
build_chain-IsGoverned none false = tt
build_chain-IsGoverned (some (u, v)) true = tt
build_chain-IsGoverned (some (u, v)) false = elim (Result-cases (unary_chain u)) [
  | inr (name, missing) ↦ rw missing tt
  | inl (us, all) ↦ elim (Result-cases (stream_chain v)) [
    | inr (name, missing) ↦ rw (all, missing) tt
    | inl (vs, every) ↦ rw (all, every) (all, every)
  ]
]

-- The chain of an app that New returns.
abbrev pub chain_of :
    {U V : Type 0} → Result NewError ((List U × List V) × App) → Result NewError (List U × List V)
chain_of (ok (chain, a)) = ok chain
chain_of (err e) = err e

-- An app that New returns has all the stages of the last set that its options give, or, if they opt
-- out, no stage and no set: it has no chain only where the options say so.
pub new-IsGoverned :
    {U V H : Type 0} (os : List (AppOption U V H))
    → IsGoverned (last_set none os) (opts_out false os) (chain_of (new os))
unfolding new
new-IsGoverned {U} {V} {H} os =
    let c : AppConfig U V H = apply_options os empty_config in
    let (sets, outs) = interceptors-apply_options os empty_config in
    let governed : IsGoverned (last_set none os) (opts_out false os)
        (build_chain c.interceptors c.no_interceptors) =
      subst (λ s. IsGoverned s (opts_out false os) (build_chain c.interceptors c.no_interceptors))
        sets
        (subst (λ b. IsGoverned c.interceptors b (build_chain c.interceptors c.no_interceptors))
          outs (build_chain-IsGoverned c.interceptors c.no_interceptors)) in
    elim (Result-cases (build_chain c.interceptors c.no_interceptors)) [
      | inr (e, refused) ↦ rw refused tt
      | inl (chain, built) ↦ elim (Result-cases (build_listeners false c.extra_listeners)) [
        | inr (e, refused) ↦ rw (built, refused) tt
        | inl (ls, all) ↦
            rw (built, all)
              (subst (IsGoverned (last_set none os) (opts_out false os)) built governed)
      ]
    ]
