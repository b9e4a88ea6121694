-- ===== src/Apperr/Resolve/Loopback.antt =====
-- apperr/errors.go: an error that crosses the in-process gRPC loopback as a status is resolved, on
-- the other side, to the same mapping and the same message.
use gortexa.Common.{
  ℕ, string_eq, nat_eq, true, false, none, some, [], ◌∷◌, ◌++◌, ◌==◌, ◌≡◌, ◌≢◌, arith, Bool-cases,
  subst, inl, inr, refl, nat_beq_iff, ◌⊎◌,
}
use text.Mathlib.TextEquality.{eq_iff}
use gortexa.Common.Dict.{lookup}
use gortexa.Apperr.Code
use gortexa.Apperr.Types.{
  Category, Mapping, Detail, error_info, Status, Err, grpc, cat_internal, as_app, context_category,
  is_deadline, is_canceled,
}
use gortexa.Apperr.Registry.{Registry, internal}
use gortexa.Apperr.Registry.Invariant.{IsWellFormed}
use gortexa.Apperr.Resolve.{
  Grpc, Resolved, is_open, as_status, answer_status, of_category, of_status, status_category,
  resolve_context, resolve_status, resolve_other, resolve_err, resolve, status_of, attach,
  to_grpc_status, error_info_domain, inner_message,
}
use gortexa.Apperr.Resolve.Safety.{resolve-IsSafe}
use gortexa.Apperr.Resolve.Rows.{IsRow, resolve-IsRow}

-- What the code relies on in google.golang.org/grpc/status: FromError gives back the status of a
-- status error, and WithDetails appends the detail where the code is not OK.
pub record IsFaithful (g : Grpc) : Type 0 where
  pub from_status : (s : Status) → g.from_error (grpc (some s)) ≡ some s
  pub appends :
      (s : Status) (d : Detail)
      → s.code ≢ Code.ok
      → g.with_details s d ≡ some (record s { details = s.details ++ d ∷ [] })

not_open : (m : Mapping) → (m.category == cat_internal) ≡ true → is_open m ≡ false
not_open m hidden = rw ((eq_iff m.category cat_internal).0 hidden) refl

answer_status_hidden :
    (default : Registry) (err : Err) (m : Mapping)
    → (m.category == cat_internal) ≡ true
    → answer_status default err m ≡ none
unfolding answer_status
answer_status_hidden default err m hidden = ground arith

module _ (g : Grpc) (f : IsFaithful g) (r : Registry) (w : IsWellFormed r)
    (no_blank : lookup "" r.by_cat ≡ none) where
  -- The code's owner is never the empty category.
  owner_ne_blank : (k : ℕ) (o : Category) → lookup k r.by_code ≡ some o → (o == "") ≡ false
  owner_ne_blank k o owned =
      let (m, row, code) = w.owner_row k o owned in ground (arith, eq_iff o "")

  -- The status names its category by the code, which the category owns, or by one detail.
  status_of-cases :
      (x : Resolved)
      → IsRow r x
      → let base : Status = record {
        code = x.mapping.grpc_code;
        message = x.message;
        details = [];
      } in
        ((lookup x.mapping.grpc_code r.by_code ≡ some x.mapping.category)
          × (status_of g r x ≡ base))
        ⊎ (status_of g r x
            ≡ record base { details = error_info x.mapping.category error_info_domain ∷ [] })
  unfolding status_of attach
  status_of-cases x row =
      let (o, owned) = w.claimed x.mapping.category x.mapping row in
      elim (Bool-cases (o == x.mapping.category)) [
        | inl own ↦ inl (ground (arith, eq_iff o x.mapping.category), ground arith)
        | inr shared ↦ inr (
            ground (
              arith,
              owner_ne_blank x.mapping.grpc_code o,
              f.appends (record { code = x.mapping.grpc_code; message = x.message; details = [] })
                  (error_info x.mapping.category error_info_domain),
              w.real_code x.mapping.category x.mapping,
            ))
      ]

  -- The category survives: by the code where the category owns it, else by the detail.
  status_category-status_of :
      (x : Resolved) → IsRow r x → status_category r (status_of g r x) ≡ some x.mapping.category
  unfolding status_category
  status_category-status_of x row = elim (status_of-cases x row) [
    | inl (owned, same) ↦ rw same owned
    | inr same ↦ rw same (ground (arith, nat_beq_iff x.mapping.grpc_code x.mapping.grpc_code))
  ]

  -- The row's answer on the other side of the loopback.
  answer_status-status_of :
      (default : Registry) (x : Resolved)
      → IsRow r x
      → (x.message ≡ x.mapping.safe_message) ⊎ (is_open x.mapping ≡ true)
      → (x.mapping.category == cat_internal) ≡ false
      → answer_status default (grpc (some (status_of g r x))) x.mapping ≡ some x
  unfolding answer_status as_status inner_message
  answer_status-status_of default x row text visible = elim (status_of-cases x row) [
    | inl (owned, same) ↦ rw (same, visible, answer_status) (ground arith)
    | inr same ↦ rw (same, visible, answer_status) (ground arith)
  ]

  of_status-status_of :
      (default : Registry) (err : Err) (x : Resolved)
      → IsRow r x
      → of_status default r err (status_of g r x) ≡ answer_status default err x.mapping
  unfolding of_status of_category
  of_status-status_of default err x row = ground (
    arith,
    status_category-status_of x row,
    status_of-cases x row,
    w.real_code x.mapping.category x.mapping,
  )

  internal-eq :
      (x : Resolved)
      → IsRow r x
      → (x.mapping.category == cat_internal) ≡ true
      → internal r ≡ x.mapping
  unfolding internal
  internal-eq x row hidden =
      let same = (eq_iff x.mapping.category cat_internal).0 hidden in
      rw (subst (λ c. lookup c r.by_cat ≡ some x.mapping) same row, internal) refl

  resolve-status_of :
      (default : Registry) (x : Resolved) {i : Mapping}
      → lookup cat_internal r.by_cat ≡ some i
      → IsRow r x
      → (x.message ≡ x.mapping.safe_message) ⊎ (is_open x.mapping ≡ true)
      → resolve g default r (some (grpc (some (status_of g r x)))) ≡ x
  unfolding resolve resolve_err as_app resolve_other resolve_context context_category is_deadline
      is_canceled resolve_status internal
  resolve-status_of default x known row text =
      elim (Bool-cases (x.mapping.category == cat_internal)) [
        | inr visible ↦ ground (
          arith,
          f.from_status (status_of g r x),
          of_status-status_of default (grpc (some (status_of g r x))) x row,
          answer_status-status_of default x row text visible,
        )
        | inl hidden ↦ ground (
          arith,
          f.from_status (status_of g r x),
          of_status-status_of default (grpc (some (status_of g r x))) x row,
          answer_status_hidden default (grpc (some (status_of g r x))) x.mapping hidden,
          internal-eq x row hidden,
          not_open x.mapping hidden,
        )
      ]

-- What the server resolves and what the gateway or the MCP bridge resolves from the status that
-- crosses the loopback are the same mapping and message, whatever the error: for a well-formed
-- registry that has the internal row and no row of the empty name.
pub resolve-to_grpc_status :
    (g : Grpc) (default r : Registry) (i : Mapping) (err : Err)
    → IsFaithful g
    → IsWellFormed r
    → lookup "" r.by_cat ≡ none
    → lookup cat_internal r.by_cat ≡ some i
    → resolve g default r (some (grpc (some (to_grpc_status g default r (some err)))))
      ≡ resolve g default r (some err)
unfolding to_grpc_status
resolve-to_grpc_status g default r i err f w no_blank known =
    resolve-status_of g f r w no_blank default (resolve g default r (some err)) known
      (resolve-IsRow r w known g default err)
      (elim (resolve-IsSafe g default r err) [
        | inl safe_text ↦ inl safe_text
        | inr (o, said) ↦ inr o
      ])
