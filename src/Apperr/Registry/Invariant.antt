-- ===== src/Apperr/Registry/Invariant.antt =====
-- apperr/errors.go: what Register keeps: each row is filed under its own name, no row has a code
-- that cannot stand for an error, and each code in use has an owner that has a row for it.
use gortexa.Common.{
  ℕ, string_eq, nat_eq, none, some, List, [], ◌∷◌, ◌==◌, if◌then◌else◌, ◌≡◌, ◌≢◌, arith,
  Option-cases, inl, inr, nat_beq_iff, subst,
}
use text.Mathlib.TextEquality.{eq_iff}
use mathlib.Core.Option.{some-injective}
use gortexa.Common.Dict.{lookup, lookup-insert}
use gortexa.Apperr.Code
use gortexa.Apperr.Types.{Category, Mapping}
use gortexa.Apperr.Registry.{
  Registry, empty, register, register_all, new_registry, store, claim_code,
}

pub record IsWellFormed (r : Registry) : Type 0 where
  pub own_name : (c : Category) (m : Mapping) → lookup c r.by_cat ≡ some m → m.category ≡ c
  pub real_code :
      (c : Category) (m : Mapping)
      → lookup c r.by_cat ≡ some m
      → (m.grpc_code ≢ Code.ok) × (m.grpc_code ≢ Code.unknown)
  pub claimed :
      (c : Category) (m : Mapping)
      → lookup c r.by_cat ≡ some m
      → (o : Category) × (lookup m.grpc_code r.by_code ≡ some o)
  pub owner_row :
      (k : ℕ) (o : Category)
      → lookup k r.by_code ≡ some o
      → (m : Mapping) × (lookup o r.by_cat ≡ some m) × (m.grpc_code ≡ k)

module _ (m : Mapping) (r : Registry) (w : IsWellFormed r) where
  -- Register keeps the owner of a code that has one, and gives the code to the row if it has none.
  claim_code-lookup :
      (k : ℕ)
      → lookup k (claim_code m r.by_code) ≡ elim (lookup k r.by_code) [
        | some o ↦ some o
        | none ↦ if m.grpc_code == k then some m.category else none
      ]
  unfolding claim_code
  claim_code-lookup k =
      ground (arith, lookup-insert m.grpc_code k m.category r.by_code, nat_beq_iff m.grpc_code k)

  module _ (free : lookup m.category r.by_cat ≡ none)
      (real : (m.grpc_code ≢ Code.ok) × (m.grpc_code ≢ Code.unknown)) where
    by_cat-store :
        (c : Category)
        → lookup c (store m r).by_cat ≡ (if m.category == c then some m else lookup c r.by_cat)
    unfolding store
    by_cat-store c = lookup-insert m.category c m r.by_cat

    by_code-store :
        (k : ℕ)
        → lookup k (store m r).by_code ≡ elim (lookup k r.by_code) [
          | some o ↦ some o
          | none ↦ if m.grpc_code == k then some m.category else none
        ]
    unfolding store
    by_code-store k = claim_code-lookup k

    -- A row that is in the table before is in it after.
    by_cat-kept :
        (c : Category) (x : Mapping)
        → lookup c r.by_cat ≡ some x
        → lookup c (store m r).by_cat ≡ some x
    by_cat-kept c x h = ground (arith, by_cat-store c, eq_iff m.category c)

    store-claimed :
        (c : Category) (x : Mapping)
        → lookup c (store m r).by_cat ≡ some x
        → (o : Category) × (lookup x.grpc_code (store m r).by_code ≡ some o)
    store-claimed c x h = elim (Option-cases (lookup x.grpc_code r.by_code)) [
      | inr (o, owned) ↦ (o, ground (arith, by_code-store x.grpc_code))
      | inl unowned ↦ (
        m.category,
        ground (
          arith,
          by_code-store x.grpc_code,
          by_cat-store c,
          w.claimed c x,
          nat_beq_iff m.grpc_code x.grpc_code,
        ),
      )
    ]

    store-owner_row :
        (k : ℕ) (o : Category)
        → lookup k (store m r).by_code ≡ some o
        → (x : Mapping) × (lookup o (store m r).by_cat ≡ some x) × (x.grpc_code ≡ k)
    store-owner_row k o h = elim (Option-cases (lookup k r.by_code)) [
      | inr (o', owned) ↦
          let (x, row, code) = w.owner_row k o (ground (arith, by_code-store k)) in
          (x, by_cat-kept o x row, code)
      | inl unowned ↦ (
        m,
        ground (arith, by_code-store k, by_cat-store o, eq_iff m.category o),
        ground (arith, by_code-store k, nat_beq_iff m.grpc_code k),
      )
    ]

    store-IsWellFormed : IsWellFormed (store m r)
    store-IsWellFormed = record {
      own_name = λ c x h. ground (arith, by_cat-store c, eq_iff m.category c, w.own_name c x);
      real_code = λ c x h. ground (arith, by_cat-store c, eq_iff m.category c, w.real_code c x);
      claimed = store-claimed;
      owner_row = store-owner_row;
    }

register-eq-some :
    (m : Mapping) (r r' : Registry)
    → register m r ≡ some r'
    → (lookup m.category r.by_cat ≡ none)
      × (m.grpc_code ≢ Code.ok)
      × (m.grpc_code ≢ Code.unknown)
      × (store m r ≡ r')
unfolding register
register-eq-some m r r' h = ground arith

-- A Register that does not panic keeps the registry well-formed.
pub register-IsWellFormed :
    (m : Mapping) (r r' : Registry) → IsWellFormed r → register m r ≡ some r' → IsWellFormed r'
register-IsWellFormed m r r' w h =
    let (free, not_ok, not_unknown, same) = register-eq-some m r r' h in
    subst IsWellFormed same (store-IsWellFormed m r w free (not_ok, not_unknown))

empty-IsWellFormed : IsWellFormed empty
unfolding lookup
empty-IsWellFormed = record {
  own_name = λ c m h. cc;
  real_code = λ c m h. cc;
  claimed = λ c m h. cc;
  owner_row = λ k o h. cc;
}

register_all-IsWellFormed :
    (seed : List Mapping) (r r' : Registry)
    → IsWellFormed r
    → register_all seed r ≡ some r'
    → IsWellFormed r'
unfolding register_all
register_all-IsWellFormed [] r r' w h = subst IsWellFormed (some-injective r r' h) w
register_all-IsWellFormed (m ∷ seed) r r' w h = elim (Option-cases (register m r)) [
  | inl panics ↦ cc
  | inr (r₁, e) ↦
      register_all-IsWellFormed seed r₁ r' (register-IsWellFormed m r r₁ w e) (ground arith)
]

-- Whatever rows an application seeds a registry with, the registry that NewRegistry returns is
-- well-formed.
pub new_registry-IsWellFormed :
    (seed : List Mapping) (r : Registry) → new_registry seed ≡ some r → IsWellFormed r
unfolding new_registry
new_registry-IsWellFormed seed r h = register_all-IsWellFormed seed empty r empty-IsWellFormed h
