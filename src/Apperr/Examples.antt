-- ===== src/Apperr/Examples.antt =====
-- The error model at concrete errors.
use gortexa.Common.{string_eq, nat_eq, Option, none, some, [], ◌∷◌, ◌++◌, ◌≡◌, refl}
use gortexa.Apperr.Types.{
  Status, Err, grpc, wrapped, opaque, wrap, cat_unauthenticated, default_mappings, as_app,
}
use gortexa.Apperr.Registry.Invariant.{IsWellFormed, new_registry-IsWellFormed}
use gortexa.Apperr.Resolve.{Grpc, resolve, resolve_err, resolve_app, to_http, to_grpc_status}
use gortexa.Apperr.Resolve.Safety.{IsSafe, resolve-IsSafe}
use gortexa.Apperr.Resolve.Loopback.{IsFaithful, resolve-to_grpc_status}
use gortexa.Apperr.Default.{
  default_registry, new_registry-default, default-IsWellFormed, lookup-internal, lookup-blank,
  internal_row,
}

-- FromError that knows only plain status errors, and WithDetails.
status_from : Err → Option Status
status_from (grpc s) = s
status_from _ = none

abbrev plain_grpc : Grpc
plain_grpc = record {
  from_error = status_from;
  with_details = λ s d. some (record s { details = s.details ++ d ∷ [] });
}

plain_grpc-IsFaithful : IsFaithful plain_grpc
unfolding status_from
plain_grpc-IsFaithful = record { from_status = λ s. refl; appends = λ s d h. refl }

abbrev expired_token : Err
expired_token =
    wrapped "login" (wrap cat_unauthenticated "invalid or expired token" (opaque "sql: secret"))

expired_token_http :
    to_http plain_grpc default_registry default_registry (some expired_token)
    ≡ (401, cat_unauthenticated, "invalid or expired token")
unfolding to_http resolve resolve_err resolve_app as_app default_registry
expired_token_http = refl

new_registry-IsWellFormed_example : IsWellFormed default_registry
new_registry-IsWellFormed_example =
    new_registry-IsWellFormed default_mappings default_registry new_registry-default

resolve-IsSafe_example :
    IsSafe default_registry expired_token
      (resolve plain_grpc default_registry default_registry (some expired_token))
resolve-IsSafe_example = resolve-IsSafe plain_grpc default_registry default_registry expired_token

resolve-to_grpc_status_example :
    resolve plain_grpc default_registry default_registry (
      some (
        grpc (
          some (to_grpc_status plain_grpc default_registry default_registry (some expired_token)))))
    ≡ resolve plain_grpc default_registry default_registry (some expired_token)
resolve-to_grpc_status_example =
    resolve-to_grpc_status plain_grpc default_registry default_registry internal_row expired_token
      plain_grpc-IsFaithful default-IsWellFormed lookup-blank lookup-internal
