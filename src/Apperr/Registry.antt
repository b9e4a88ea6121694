-- ===== src/Apperr/Registry.antt =====
-- apperr/errors.go: the registry of mappings, and what Register keeps of it.
pub mod Invariant
use gortexa.Common.{
  ℕ, String, string_eq, nat_eq, Bool, false, Option, none, some, List, [], ◌∷◌, ◌==◌, ◌||◌,
  if◌then◌else◌,
}
use gortexa.Common.Dict.{Dict, lookup, insert}
use gortexa.Apperr.Code
use gortexa.Apperr.Types.{Category, Mapping, cat_internal}

-- byCat and byCode; the lock is left out, since each method runs under it.
pub record Registry : Type 0 where
  pub by_cat : Dict Category Mapping
  pub by_code : Dict ℕ Category

abbrev pub empty : Registry
empty = record { by_cat = []; by_code = [] }

-- Register; `none` is its panic.
claim_code : Mapping → Dict ℕ Category → Dict ℕ Category
unfolding lookup insert
claim_code m codes = elim (lookup m.grpc_code codes) [
  | none ↦ insert m.grpc_code m.category codes
  | some owner ↦ codes
]

store : Mapping → Registry → Registry
unfolding claim_code
store m r = record { by_cat = insert m.category m r.by_cat; by_code = claim_code m r.by_code }

unfoldable pub register : Mapping → Registry → Option Registry
unfolding store
register m r = elim (lookup m.category r.by_cat) [
  | some dup ↦ none
  | none ↦ if m.grpc_code == Code.ok || m.grpc_code == Code.unknown then none else some (store m r)
]

-- NewRegistry
unfoldable pub register_all : List Mapping → Registry → Option Registry
unfolding register
register_all [] r = some r
register_all (m ∷ seed) r = elim (register m r) [ none ↦ none | some r' ↦ register_all seed r' ]

unfoldable pub new_registry : List Mapping → Option Registry
unfolding register_all
new_registry seed = register_all seed empty

-- Registry.internal
fallback : Mapping
fallback = record {
  category = cat_internal;
  grpc_code = Code.internal;
  http_status = 500;
  retryable = false;
  safe_message = "internal error";
}

unfoldable pub internal : Registry → Mapping
unfolding fallback
internal r = elim (lookup cat_internal r.by_cat) [ some m ↦ m | none ↦ fallback ]
