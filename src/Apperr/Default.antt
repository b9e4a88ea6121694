-- ===== src/Apperr/Default.antt =====
-- apperr/errors.go: the process-wide registry `Default`, and what it makes of domain errors.
use gortexa.Common.{string_eq, nat_eq, false, Option, none, some, ◌≡◌, refl}
use gortexa.Common.Dict.{lookup, insert, erase}
use gortexa.Apperr.Types.{default_mappings, Mapping, cat_internal}
use gortexa.Apperr.Registry.{Registry, empty, new_registry}
use gortexa.Apperr.Registry.Invariant.{IsWellFormed, new_registry-IsWellFormed}

or_empty : Option Registry → Registry
or_empty none = empty
or_empty (some r) = r

-- var Default = NewRegistry(DefaultMappings()...)
unfoldable pub default_registry : Registry
unfolding or_empty new_registry default_mappings lookup insert erase
default_registry = or_empty (new_registry default_mappings)

-- The default table registers without a panic.
pub new_registry-default : new_registry default_mappings ≡ some default_registry
unfolding default_registry
new_registry-default = refl

pub default-IsWellFormed : IsWellFormed default_registry
default-IsWellFormed =
    new_registry-IsWellFormed default_mappings default_registry new_registry-default

abbrev pub internal_row : Mapping
internal_row = record {
  category = cat_internal;
  grpc_code = 13;
  http_status = 500;
  retryable = false;
  safe_message = "internal error";
}

pub lookup-internal : lookup cat_internal default_registry.by_cat ≡ some internal_row
unfolding default_registry
lookup-internal = refl

pub lookup-blank : lookup "" default_registry.by_cat ≡ none
unfolding default_registry
lookup-blank = refl
