-- ===== src/Apperr/Resolve/Safety.antt =====
-- apperr/errors.go: what a client may read of an error.
use gortexa.Common.{
  String, string_eq, nat_eq, true, Option, none, some, ◌==◌, ◌≡◌, arith, ◌⊎◌, Bool-cases, if_elim,
  subst, Option-cases, inl, inr, refl,
}
use gortexa.Common.Dict.{lookup}
use gortexa.Apperr.Types.{Category, Mapping, AppError, Status, Err, cat_internal, as_app}
use gortexa.Apperr.Registry.{Registry}
use gortexa.Apperr.Resolve.{
  Grpc, Resolved, is_open, own_message, answer_app, answer_status, resolve_app, as_status,
  resolve_context, resolve_status, resolve_other, resolve_err, resolve, of_status, of_category,
  status_category, inner_message,
}

-- Who says the text: the `*Error` of the chain, or the innermost status of it.
pub data IsSaid (default : Registry) (err : Err) (text : String) : Type 0 where
  by_error : (e : AppError) → as_app err ≡ some (some e) → text ≡ e.msg → IsSaid default err text
  by_status :
      (s : Status)
      → as_status default err ≡ some (some s)
      → text ≡ s.message
      → IsSaid default err text

-- The message is the row's own, or the row is one of the two open categories and the text is said.
abbrev pub IsSafe : Registry → Err → Resolved → Type 0
IsSafe default err x =
    (x.message ≡ x.mapping.safe_message)
    ⊎ ((is_open x.mapping ≡ true) × IsSaid default err x.message)

IsSafe-own :
    (default : Registry) (err : Err) (e : AppError) (m : Mapping)
    → as_app err ≡ some (some e)
    → is_open m ≡ true
    → IsSafe default err (record { mapping = m; message = own_message e m })
unfolding own_message
IsSafe-own default err e m h o = elim (Bool-cases (e.msg == "")) [
  | inl blank ↦ inl (ground arith)
  | inr said ↦ inr (o, by_error e h (ground arith))
]

answer_app-IsSafe :
    (default r : Registry) (err : Err) (e : AppError) (m : Mapping)
    → as_app err ≡ some (some e)
    → IsSafe default err (answer_app r e m)
unfolding answer_app
answer_app-IsSafe default r err e m h =
    if_elim (IsSafe default err) (m.category == cat_internal) (λ _. inl refl)
      λ _. if_elim (IsSafe default err) (is_open m) (IsSafe-own default err e m h) (λ _. inl refl)

resolve_app-IsSafe :
    (default r : Registry) (err : Err) (e : AppError)
    → as_app err ≡ some (some e)
    → IsSafe default err (resolve_app r e)
unfolding resolve_app
resolve_app-IsSafe default r err e h = elim (Option-cases (lookup e.category r.by_cat)) [
  | inl unknown ↦ rw (unknown, resolve_app) (inl refl)
  | inr (m, row) ↦ rw (row, resolve_app) (answer_app-IsSafe default r err e m h)
]

resolve_context-IsSafe :
    (default r : Registry) (err : Err) (x : Resolved)
    → resolve_context r err ≡ some x
    → IsSafe default err x
unfolding resolve_context
resolve_context-IsSafe default r err x h = inl (ground arith)

-- The answer that forwards the text of the innermost status.
abbrev forwarded : Registry → Err → Mapping → Resolved
forwarded default err m = record {
  mapping = m;
  message = inner_message (as_status default err) m.safe_message;
}

inner_message-IsSafe :
    (default : Registry) (err : Err) (m : Mapping)
    → is_open m ≡ true
    → (inner : Option (Option Status)) → as_status default err ≡ inner
    → IsSafe default err (record { mapping = m; message = inner_message inner m.safe_message })
unfolding inner_message
inner_message-IsSafe default err m o (some (some s)) h = inr (o, by_status s h refl)
inner_message-IsSafe default err m o (some none) h = inl refl
inner_message-IsSafe default err m o none h = inl refl

answer_status-IsSafe :
    (default : Registry) (err : Err) (m : Mapping) (x : Resolved)
    → answer_status default err m ≡ some x
    → IsSafe default err x
unfolding answer_status
answer_status-IsSafe default err m x h = elim (Bool-cases (is_open m)) [
  | inl o ↦
      subst (IsSafe default err) {x = forwarded default err m} {y = x} (ground arith)
        (inner_message-IsSafe default err m o (as_status default err) refl)
  | inr closed ↦ inl (ground arith)
]

-- An answer from a ready-made status is the answer for some row of the table.
of_category-eq-some :
    (default r : Registry) (err : Err) (cat : Category) (x : Resolved)
    → of_category default r err cat ≡ some x
    → (m : Mapping) × (lookup cat r.by_cat ≡ some m) × (answer_status default err m ≡ some x)
unfolding of_category
of_category-eq-some default r err cat x h = elim (Option-cases (lookup cat r.by_cat)) [
  | inl unknown ↦ cc
  | inr (m, row) ↦ (m, row, ground arith)
]

pub resolve_status-eq-some :
    (g : Grpc) (default r : Registry) (err : Err) (x : Resolved)
    → resolve_status g default r err ≡ some x
    → (cat : Category) × (m : Mapping) × (lookup cat r.by_cat ≡ some m)
      × (answer_status default err m ≡ some x)
unfolding resolve_status of_status
resolve_status-eq-some g default r err x h = elim (Option-cases (g.from_error err)) [
  | inl not_ok ↦ cc
  | inr (s, e) ↦ elim (Option-cases (status_category r s)) [
    | inl unnamed ↦ ground arith
    | inr (cat, named) ↦
        let (m, row, answer) = of_category-eq-some default r err cat x (ground arith) in
        (cat, m, row, answer)
  ]
]

resolve_status-IsSafe :
    (g : Grpc) (default r : Registry) (err : Err) (x : Resolved)
    → resolve_status g default r err ≡ some x
    → IsSafe default err x
resolve_status-IsSafe g default r err x e =
    let (cat, m, row, answer) = resolve_status-eq-some g default r err x e in
    answer_status-IsSafe default err m x answer

resolve_other-IsSafe :
    (g : Grpc) (default r : Registry) (err : Err)
    → IsSafe default err (resolve_other g default r err)
unfolding resolve_other
resolve_other-IsSafe g default r err = elim (Option-cases (resolve_context r err)) [
  | inr (x, e) ↦ rw (e, resolve_other) (resolve_context-IsSafe default r err x e)
  | inl none_yet ↦ elim (Option-cases (resolve_status g default r err)) [
    | inr (x, e) ↦ rw (none_yet, e, resolve_other) (resolve_status-IsSafe g default r err x e)
    | inl e ↦ rw (none_yet, e, resolve_other) (inl refl)
  ]
]

-- Whatever error it is given, resolve emits the safe message of the row that it returns, or the
-- row is invalid_argument or unauthenticated and the message is the text of the first `*Error` of
-- the chain, or of the innermost status: never the text of a wrapper or of a cause.
pub resolve-IsSafe :
    (g : Grpc) (default r : Registry) (err : Err)
    → IsSafe default err (resolve g default r (some err))
unfolding resolve resolve_err
resolve-IsSafe g default r err = elim (Option-cases (as_app err)) [
  | inl plain ↦ rw (plain, resolve_err) (resolve_other-IsSafe g default r err)
  | inr (none, typed_nil) ↦ rw (typed_nil, resolve_err) (resolve_other-IsSafe g default r err)
  | inr (some e, found) ↦ rw (found, resolve_err) (resolve_app-IsSafe default r err e found)
]
