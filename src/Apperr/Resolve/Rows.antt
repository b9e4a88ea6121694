-- ===== src/Apperr/Resolve/Rows.antt =====
-- apperr/errors.go: resolve answers with a row of the registry, on every branch.
use gortexa.Common.{
  string_eq, none, some, ◌==◌, ◌≡◌, arith, Option-cases, if_elim, subst, sym, inl, inr,
}
use gortexa.Common.Dict.{lookup}
use gortexa.Apperr.Types.{Category, Mapping, AppError, Err, cat_internal, as_app, context_category}
use gortexa.Apperr.Registry.{Registry, internal}
use gortexa.Apperr.Registry.Invariant.{IsWellFormed}
use gortexa.Apperr.Resolve.{
  Grpc, Resolved, safe, is_open, answer_app, answer_status, resolve_app, resolve_context,
  resolve_status, resolve_other, resolve_err, resolve,
}
use gortexa.Apperr.Resolve.Safety.{resolve_status-eq-some}

-- The answer's mapping is filed in the table under its own category.
abbrev pub IsRow : Registry → Resolved → Type 0
IsRow r x = lookup x.mapping.category r.by_cat ≡ some x.mapping

module _ (r : Registry) (w : IsWellFormed r) {i : Mapping}
    (known : lookup cat_internal r.by_cat ≡ some i) where
  row-IsRow :
      (c : Category) (m : Mapping)
      → lookup c r.by_cat ≡ some m
      → lookup m.category r.by_cat ≡ some m
  row-IsRow c m row = subst (λ k. lookup k r.by_cat ≡ some m) (sym (w.own_name c m row)) row

  internal-IsRow : IsRow r (safe (internal r))
  unfolding internal
  internal-IsRow = rw (known, internal) (row-IsRow cat_internal i known)

  answer_app-IsRow :
      (e : AppError) (m : Mapping)
      → lookup m.category r.by_cat ≡ some m
      → IsRow r (answer_app r e m)
  unfolding answer_app
  answer_app-IsRow e m row =
      if_elim (IsRow r) (m.category == cat_internal) (λ _. internal-IsRow)
        λ _. if_elim (IsRow r) (is_open m) (λ _. row) (λ _. row)

  resolve_app-IsRow : (e : AppError) → IsRow r (resolve_app r e)
  unfolding resolve_app
  resolve_app-IsRow e = elim (Option-cases (lookup e.category r.by_cat)) [
    | inl unknown ↦ rw (unknown, resolve_app) internal-IsRow
    | inr (m, row) ↦ rw (row, resolve_app) (answer_app-IsRow e m (row-IsRow e.category m row))
  ]

  resolve_context-IsRow : (err : Err) (x : Resolved) → resolve_context r err ≡ some x → IsRow r x
  unfolding resolve_context
  resolve_context-IsRow err x h = elim (Option-cases (context_category err)) [
    | inl not_context ↦ ground arith
    | inr (c, e) ↦ elim (Option-cases (lookup c r.by_cat)) [
      | inl unknown ↦ ground arith
      | inr (m, row) ↦ ground (arith, row-IsRow c m row)
    ]
  ]

  answer_status-IsRow :
      (default : Registry) (err : Err) (m : Mapping) (x : Resolved)
      → lookup m.category r.by_cat ≡ some m
      → answer_status default err m ≡ some x
      → IsRow r x
  unfolding answer_status
  answer_status-IsRow default err m x row h = ground arith

  resolve_status-IsRow :
      (g : Grpc) (default : Registry) (err : Err) (x : Resolved)
      → resolve_status g default r err ≡ some x
      → IsRow r x
  resolve_status-IsRow g default err x e =
      let (cat, m, row, answer) = resolve_status-eq-some g default r err x e in
      answer_status-IsRow default err m x (row-IsRow cat m row) answer

  resolve_other-IsRow :
      (g : Grpc) (default : Registry) (err : Err) → IsRow r (resolve_other g default r err)
  unfolding resolve_other
  resolve_other-IsRow g default err = elim (Option-cases (resolve_context r err)) [
    | inr (x, e) ↦ rw (e, resolve_other) (resolve_context-IsRow err x e)
    | inl none_yet ↦ elim (Option-cases (resolve_status g default r err)) [
      | inr (x, e) ↦ rw (none_yet, e, resolve_other) (resolve_status-IsRow g default err x e)
      | inl e ↦ rw (none_yet, e, resolve_other) internal-IsRow
    ]
  ]

  pub resolve-IsRow :
      (g : Grpc) (default : Registry) (err : Err) → IsRow r (resolve g default r (some err))
  unfolding resolve resolve_err
  resolve-IsRow g default err = elim (Option-cases (as_app err)) [
    | inl plain ↦ rw (plain, resolve_err) (resolve_other-IsRow g default err)
    | inr (none, typed_nil) ↦ rw (typed_nil, resolve_err) (resolve_other-IsRow g default err)
    | inr (some e, found) ↦ rw (found, resolve_err) (resolve_app-IsRow e)
  ]
