-- ===== src/Kernel/Options.antt =====
-- kernel/app.go and admin.go: the options of New, and what New refuses. A handler or a stage is a
-- value of its own type, that New only keeps.
pub mod Accepts
use gortexa.Common.{
  ℕ, String, Bool, true, false, Option, none, some, List, [], ◌∷◌, ◌++◌, ◌==◌, ◌&&◌, ◌||◌, not,
  if◌then◌else◌,
}
use gortexa.Common.Result.{Result, ok, err, ◌>>=◌}
use gortexa.Interceptor.Chain.{Set, unary_chain, stream_chain}
use gortexa.Kernel.Lifecycle.{App, Hook, new_app}

-- extraListenerSpec: a listener of the caller, which may be nil, or the address of the admin listener.
pub data ListenerSpec : Type 0 where
  extra_listener : Bool → ListenerSpec
  admin_listener : String → ListenerSpec

-- Option, over the types of a unary and of a stream stage and of a handler.
pub data AppOption (U V H : Type 0) : Type 0 where
  with_interceptors : Set U → Set V → AppOption U V H
  without_interceptors : AppOption U V H
  with_gateway : H → AppOption U V H
  with_mcp_handler : H → AppOption U V H
  with_http_wrap : (H → H) → AppOption U V H
  with_shutdown_hook : Hook → AppOption U V H
  with_listener : ListenerSpec → AppOption U V H

-- appConfig
pub record AppConfig (U V H : Type 0) : Type 0 where
  pub interceptors : Option (Set U × Set V)
  pub no_interceptors : Bool
  pub gateway : Option H
  pub mcp : Option H
  pub http_wrap : Option (H → H)
  pub shutdown_fns : List Hook
  pub extra_listeners : List ListenerSpec

pub data NewError : Type 0 where
  no_chain two_chains nil_listener two_admins : NewError
  missing_stage : String → NewError

abbrev pub wrap_with : {H : Type 0} → (H → H) → Option (H → H) → H → H
wrap_with mw none h = mw h
wrap_with mw (some prev) h = mw (prev h)

abbrev pub stages_of : {S : Type 0} → Result String (List S) → Result NewError (List S)
stages_of (ok ics) = ok ics
stages_of (err name) = err (missing_stage name)

-- The chain of the gRPC server: none, or that of the set, whose first missing stage panics.
unfoldable pub build_chain :
    {U V : Type 0} → Option (Set U × Set V) → Bool → Result NewError (List U × List V)
build_chain none without = if without then ok ([], []) else err no_chain
build_chain (some (u, v)) without =
    if without
    then err two_chains
    else stages_of (unary_chain u) >>= λ us. stages_of (stream_chain v) >>= λ vs. ok (us, vs)

module _ {U V H : Type 0} where
  unfoldable pub apply_option : AppOption U V H → AppConfig U V H → AppConfig U V H
  apply_option (with_interceptors u v) c = record c { interceptors = some (u, v) }
  apply_option without_interceptors c = record c { no_interceptors = true }
  apply_option (with_gateway h) c = record c { gateway = some h }
  apply_option (with_mcp_handler h) c = record c { mcp = some h }
  apply_option (with_http_wrap mw) c = record c { http_wrap = some (wrap_with mw c.http_wrap) }
  apply_option (with_shutdown_hook fn) c = record c { shutdown_fns = c.shutdown_fns ++ fn ∷ [] }
  apply_option (with_listener l) c = record c { extra_listeners = c.extra_listeners ++ l ∷ [] }

  unfoldable pub apply_options : List (AppOption U V H) → AppConfig U V H → AppConfig U V H
  unfolding apply_option
  apply_options [] c = c
  apply_options (o ∷ os) c = apply_options os (apply_option o c)

  abbrev pub empty_config : AppConfig U V H
  empty_config = record {
    interceptors = none;
    no_interceptors = false;
    gateway = none;
    mcp = none;
    http_wrap = none;
    shutdown_fns = [];
    extra_listeners = [];
  }

-- The loop over the secondary listeners, with whether an admin listener was seen: which of them the
-- caller provided.
unfoldable pub build_listeners : Bool → List ListenerSpec → Result NewError (List Bool)
build_listeners seen [] = ok []
build_listeners seen (extra_listener present ∷ specs) =
    let rest = build_listeners seen specs in
    if present then rest >>= (λ ls. ok (true ∷ ls)) else err nil_listener
build_listeners seen (admin_listener addr ∷ specs) =
    let rest = build_listeners true specs in
    if seen then err two_admins else rest >>= (λ ls. ok (false ∷ ls))

-- New: the stages of the gRPC server, and the app.
unfoldable pub new :
    {U V H : Type 0} → List (AppOption U V H) → Result NewError ((List U × List V) × App)
unfolding apply_options build_chain build_listeners
new {U} {V} {H} os =
    let c : AppConfig U V H = apply_options os empty_config in
    build_chain c.interceptors c.no_interceptors >>= λ chain.
    build_listeners false c.extra_listeners >>= λ provided.
    ok (chain, new_app provided c.shutdown_fns)
