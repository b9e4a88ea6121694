-- ===== src/Apperr/Types.antt =====
-- apperr/errors.go: categories, the error table, the errors that reach the registry, and the
-- walks along a chain of wrapped errors that the standard library's `errors` package makes.
use gortexa.Common.{
  ℕ, String, string_eq, Bool, true, false, Option, none, some, List, [], ◌∷◌, if◌then◌else◌,
}
use gortexa.Common.Dict.{Dict, insert}
use gortexa.Apperr.Code

-- `type Category string`: open, since an application registers its own.
abbrev pub Category : Type 0
Category = String

abbrev pub cat_invalid_argument : Category
cat_invalid_argument = "invalid_argument"

abbrev pub cat_unauthenticated : Category
cat_unauthenticated = "unauthenticated"

abbrev pub cat_resource_exhausted : Category
cat_resource_exhausted = "resource_exhausted"

abbrev pub cat_deadline_exceeded : Category
cat_deadline_exceeded = "deadline_exceeded"

abbrev pub cat_unavailable : Category
cat_unavailable = "unavailable"

abbrev pub cat_not_found : Category
cat_not_found = "not_found"

abbrev pub cat_internal : Category
cat_internal = "internal"

abbrev pub cat_canceled : Category
cat_canceled = "canceled"

abbrev pub cat_permission_denied : Category
cat_permission_denied = "permission_denied"

abbrev pub cat_already_exists : Category
cat_already_exists = "already_exists"

abbrev pub cat_failed_precondition : Category
cat_failed_precondition = "failed_precondition"

abbrev pub cat_aborted : Category
cat_aborted = "aborted"

abbrev pub cat_unimplemented : Category
cat_unimplemented = "unimplemented"

abbrev pub cat_out_of_range : Category
cat_out_of_range = "out_of_range"

abbrev pub cat_data_loss : Category
cat_data_loss = "data_loss"

-- One row of the error table.
pub record Mapping : Type 0 where
  pub category : Category
  pub grpc_code : ℕ
  pub http_status : ℕ
  pub retryable : Bool
  pub safe_message : String

abbrev row : Category → ℕ → ℕ → Bool → String → Mapping
row c g h r s = record {
  category = c;
  grpc_code = g;
  http_status = h;
  retryable = r;
  safe_message = s;
}

-- DefaultMappings
unfoldable pub default_mappings : List Mapping
default_mappings =
    row cat_invalid_argument Code.invalid_argument 400 false "invalid argument"
    ∷ row cat_unauthenticated Code.unauthenticated 401 false "unauthenticated"
    ∷ row cat_permission_denied Code.permission_denied 403 false "permission denied"
    ∷ row cat_not_found Code.not_found 404 false "not found"
    ∷ row cat_already_exists Code.already_exists 409 false "already exists"
    ∷ row cat_resource_exhausted Code.resource_exhausted 429 true "resource exhausted"
    ∷ row cat_failed_precondition Code.failed_precondition 412 false "failed precondition"
    ∷ row cat_aborted Code.aborted 409 true "aborted"
    ∷ row cat_deadline_exceeded Code.deadline_exceeded 504 true "deadline exceeded"
    ∷ row cat_unavailable Code.unavailable 503 true "unavailable"
    ∷ row cat_unimplemented Code.unimplemented 501 false "unimplemented"
    ∷ row cat_internal Code.internal 500 false "internal error"
    ∷ row cat_canceled Code.canceled 499 false "canceled"
    ∷ row cat_out_of_range Code.out_of_range 400 false "out of range"
    ∷ row cat_data_loss Code.data_loss 500 false "data loss"
    ∷ []

-- `*Error` less its cause. A field's value is an opaque identity: the code only carries it.
pub record AppError : Type 0 where
  pub category : Category
  pub msg : String
  pub fields : Dict String ℕ

-- A status detail: the ErrorInfo message, or any other.
pub data Detail : Type 0 where
  error_info : (reason domain : String) → Detail
  other_detail : ℕ → Detail

-- A gRPC status: what `status.New` builds and Code, Message and Details read.
pub record Status : Type 0 where
  pub code : ℕ
  pub message : String
  pub details : List Detail

-- The errors that the registry meets: a `*Error` with or without a cause, a typed nil `*Error`,
-- the two context errors, a foreign error with a GRPCStatus method, one that wraps another, and
-- any other. A Go `error` is an `Option Err`.
pub data Err : Type 0 where
  app : AppError → Err
  app_wrap : AppError → Err → Err
  nil_app : Err
  deadline_exceeded canceled : Err
  grpc : Option Status → Err
  wrapped : String → Err → Err
  opaque : String → Err

-- New
abbrev pub new : Category → String → Err
new cat msg = app (record { category = cat; msg = msg; fields = [] })

-- Wrap
abbrev pub wrap : Category → String → Err → Err
wrap cat msg cause = app_wrap (record { category = cat; msg = msg; fields = [] }) cause

-- With: a copy with one more field.
unfoldable pub with_field : AppError → String → ℕ → AppError
unfolding insert
with_field e key val = record e { fields = insert key val e.fields }

-- errors.AsType[*Error]: the first `*Error` of the chain, itself perhaps a typed nil.
unfoldable pub as_app : Err → Option (Option AppError)
as_app (app e) = some (some e)
as_app (app_wrap e cause) = some (some e)
as_app nil_app = some none
as_app (wrapped text e) = as_app e
as_app _ = none

-- errors.Is(err, context.DeadlineExceeded)
unfoldable pub is_deadline : Err → Bool
is_deadline deadline_exceeded = true
is_deadline (app_wrap e cause) = is_deadline cause
is_deadline (wrapped text e) = is_deadline e
is_deadline _ = false

-- errors.Is(err, context.Canceled)
unfoldable pub is_canceled : Err → Bool
is_canceled canceled = true
is_canceled (app_wrap e cause) = is_canceled cause
is_canceled (wrapped text e) = is_canceled e
is_canceled _ = false

-- contextCategory
unfoldable pub context_category : Err → Option Category
unfolding is_deadline is_canceled
context_category err =
    if is_deadline err
    then some cat_deadline_exceeded
    else if is_canceled err
    then some cat_canceled
    else none
