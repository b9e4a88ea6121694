-- ===== src/Apperr/Resolve.antt =====
-- apperr/errors.go: resolve, which reduces any error to its mapping and the text a client may see,
-- and the adapters to gRPC, HTTP and MCP.
pub mod Safety
pub mod Rows
pub mod Loopback
use gortexa.Common.{
  ℕ, String, string_eq, nat_eq, Bool, true, false, Option, none, some, List, [], ◌∷◌, ◌++◌, ◌==◌,
  ◌||◌, ◌&&◌, not, if◌then◌else◌,
}
use gortexa.Common.Dict.{lookup}
use gortexa.Apperr.Code
use gortexa.Apperr.Types.{
  Category, Mapping, AppError, Detail, error_info, other_detail, Status, Err, app, app_wrap,
  nil_app, deadline_exceeded, canceled, grpc, wrapped, opaque, cat_internal, cat_invalid_argument,
  cat_unauthenticated, as_app, context_category,
}
use gortexa.Apperr.Registry.{Registry, internal}

-- google.golang.org/grpc/status, as far as the code calls it: FromError (`none` for not ok) and
-- WithDetails with one detail (`none` for its error).
pub record Grpc : Type 0 where
  pub from_error : Err → Option Status
  pub with_details : Status → Detail → Option Status

-- A mapping and the message to emit.
pub record Resolved : Type 0 where
  pub mapping : Mapping
  pub message : String

abbrev pub error_info_domain : String
error_info_domain = "gortexa.apperr"

-- The zero Mapping, which a failed Lookup yields.
abbrev zero_mapping : Mapping
zero_mapping = record {
  category = "";
  grpc_code = 0;
  http_status = 0;
  retryable = false;
  safe_message = "";
}

abbrev pub safe : Mapping → Resolved
safe m = record { mapping = m; message = m.safe_message }

-- Only these two categories send a message of their own.
abbrev pub is_open : Mapping → Bool
is_open m = m.category == cat_invalid_argument || m.category == cat_unauthenticated

-- The branch of resolve for a `*Error`.
own_message : AppError → Mapping → String
own_message e m = if e.msg == "" then m.safe_message else e.msg

answer_app : Registry → AppError → Mapping → Resolved
unfolding own_message
answer_app r e m =
    if m.category == cat_internal
    then safe (internal r)
    else if is_open m
    then record { mapping = m; message = own_message e m }
    else safe m

unfoldable pub resolve_app : Registry → AppError → Resolved
unfolding answer_app
resolve_app r e = elim (lookup e.category r.by_cat) [
  | none ↦ safe (internal r)
  | some m ↦ answer_app r e m
]

-- errors.AsType of a value with a GRPCStatus method: the first one of the chain, and what its
-- method returns. resolve asks this only where the chain holds no `*Error` but a typed nil.
unfoldable pub as_status : Registry → Err → Option (Option Status)
as_status default (app e) = none
as_status default (app_wrap e cause) = none
as_status default nil_app = some (
    some (record { code = Code.internal; message = (internal default).safe_message; details = [] }))
as_status default (grpc s) = some s
as_status default (wrapped text e) = as_status default e
as_status default _ = none

inner_message : Option (Option Status) → String → String
inner_message (some (some inner)) text = inner.message
inner_message _ text = text

-- statusCategory: the detail's category where it agrees with the code, else the code's owner.
named_by : Registry → ℕ → Detail → Option Category
named_by r code (error_info reason domain) =
    if domain == error_info_domain
    then elim (lookup reason r.by_cat) [
      | none ↦ none
      | some m ↦ if m.grpc_code == code then some m.category else none
    ]
    else none
named_by r code (other_detail d) = none

first_named : Registry → ℕ → List Detail → Option Category
unfolding named_by
first_named r code [] = lookup code r.by_code
first_named r code (d ∷ ds) = elim (named_by r code d) [
  | some c ↦ some c
  | none ↦ first_named r code ds
]

unfoldable pub status_category : Registry → Status → Option Category
unfolding first_named
status_category r s = first_named r s.code s.details

-- The branch for a context error; `none` goes on to the next branch.
unfoldable pub resolve_context : Registry → Err → Option Resolved
resolve_context r err = elim (context_category err) [
  | none ↦ none
  | some cat ↦ elim (lookup cat r.by_cat) [ none ↦ none | some m ↦ some (safe m) ]
]

-- The branch for a ready-made status.
pub answer_status : Registry → Err → Mapping → Option Resolved
unfolding inner_message
answer_status default err m =
    if m.category == cat_internal
    then none
    else if is_open m
    then some
        (record { mapping = m; message = inner_message (as_status default err) m.safe_message })
    else some (safe m)

of_category : Registry → Registry → Err → Category → Option Resolved
unfolding answer_status
of_category default r err cat = elim (lookup cat r.by_cat) [
  | none ↦ none
  | some m ↦ answer_status default err m
]

of_status : Registry → Registry → Err → Status → Option Resolved
unfolding of_category
of_status default r err s =
    if s.code == Code.unknown || s.code == Code.ok
    then none
    else elim (status_category r s) [ none ↦ none | some cat ↦ of_category default r err cat ]

module _ (g : Grpc) where
  -- The last half of ToGRPCStatus. An absent owner and the empty owner are one in the source.
  attach : Registry → Resolved → Status → Status
  attach r found st = elim (lookup found.mapping.grpc_code r.by_code) [
    | none ↦ st
    | some owner ↦
        if owner == "" || owner == found.mapping.category
        then st
        else elim (g.with_details st (error_info found.mapping.category error_info_domain)) [
          | some with_info ↦ with_info
          | none ↦ st
        ]
  ]

  unfoldable pub status_of : Registry → Resolved → Status
  unfolding attach
  status_of r found =
      attach r found
        (record { code = found.mapping.grpc_code; message = found.message; details = [] })

module _ (g : Grpc) (default : Registry) where
  unfoldable pub resolve_status : Registry → Err → Option Resolved
  unfolding of_status
  resolve_status r err = elim (g.from_error err) [
    | none ↦ none
    | some s ↦ of_status default r err s
  ]

  unfoldable pub resolve_other : Registry → Err → Resolved
  resolve_other r err = elim (resolve_context r err) [
    | some found ↦ found
    | none ↦ elim (resolve_status r err) [ some found ↦ found | none ↦ safe (internal r) ]
  ]

  unfoldable pub resolve_err : Registry → Err → Resolved
  resolve_err r err = elim (as_app err) [
    | some (some e) ↦ resolve_app r e
    | some none ↦ resolve_other r err
    | none ↦ resolve_other r err
  ]

  -- resolve
  unfoldable pub resolve : Registry → Option Err → Resolved
  resolve r none = record {
    mapping = elim (lookup cat_internal r.by_cat) [ some m ↦ m | none ↦ zero_mapping ];
    message = "";
  }
  resolve r (some err) = resolve_err r err

  -- ToGRPCStatus
  unfoldable pub to_grpc_status : Registry → Option Err → Status
  to_grpc_status r none = record { code = Code.ok; message = ""; details = [] }
  to_grpc_status r (some err) = status_of g r (resolve r (some err))

  -- ToHTTP: the status and the body's code and message.
  unfoldable pub to_http : Registry → Option Err → ℕ × Category × String
  to_http r err =
      let found = resolve r err in
      (found.mapping.http_status, found.mapping.category, found.message)

  -- ToMCP: errorCategory, isRetryable and message; isError is always set.
  unfoldable pub to_mcp : Registry → Option Err → Category × Bool × String
  to_mcp r err =
      let found = resolve r err in (found.mapping.category, found.mapping.retryable, found.message)
