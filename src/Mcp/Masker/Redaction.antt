-- ===== src/Mcp/Masker/Redaction.antt =====
-- mcp/masker.go: what the masked text can still show, and what masking leaves alone.
use text.Mathlib.TextEquality.{eq_iff}
use gortexa.Common.{
  String, string_eq, true, false, Option, some, List, [], ◌∷◌, ◌++◌, ◌==◌, map, ◌≡◌, ◌≢◌, ◌⊎◌, inl,
  inr, refl, ap, arith, if◌then◌else◌, Bool-cases, Option-cases, if_elim,
}
use gortexa.Common.Members.{contains}
use gortexa.Mcp.Masker.{
  Json, null, bool, number, string, array, object, Items, nil, cons, Fields, end, field, redacted,
  unparseable, default_mask_fields, normalize_key, mask_set, is_secret, mask, mask_items,
  mask_fields, mask_root, mask_secrets,
}

-- At every depth, a key that is `Secret` holds only the placeholder; and no key is `Secret`.
module _ (Secret : String → Type 0) where
  unfoldable mutual
    pub IsClean : Json → Type 0
    IsClean (array xs) = IsCleanItems xs
    IsClean (object fs) = IsCleanFields fs
    IsClean _ = Unit

    pub IsCleanItems : Items → Type 0
    IsCleanItems nil = Unit
    IsCleanItems (cons x xs) = IsClean x × IsCleanItems xs

    pub IsCleanFields : Fields → Type 0
    IsCleanFields end = Unit
    IsCleanFields (field k v fs) = ((v ≡ redacted) ⊎ ¬ Secret k) × IsClean v × IsCleanFields fs

  unfoldable mutual
    pub IsFree : Json → Type 0
    IsFree (array xs) = IsFreeItems xs
    IsFree (object fs) = IsFreeFields fs
    IsFree _ = Unit

    pub IsFreeItems : Items → Type 0
    IsFreeItems nil = Unit
    IsFreeItems (cons x xs) = IsFree x × IsFreeItems xs

    pub IsFreeFields : Fields → Type 0
    IsFreeFields end = Unit
    IsFreeFields (field k v fs) = (¬ Secret k) × IsFree v × IsFreeFields fs

module _ (to_lower : String → String) where
  -- A key that reads like one of the names, up to case and underscores.
  abbrev pub IsNamed : List String → String → Type 0
  IsNamed names k =
      (f : String) × (contains names f ≡ true)
      × (normalize_key to_lower f ≡ normalize_key to_lower k)

  contains-map :
      (names : List String) (f k : String)
      → contains names f ≡ true
      → normalize_key to_lower f ≡ k
      → contains (map (normalize_key to_lower) names) k ≡ true
  unfolding contains
  contains-map [] f k h same = cc
  contains-map (n ∷ names) f k h same =
      ground (arith, eq_iff n f, eq_iff (normalize_key to_lower n) k, contains-map names f k)

  pub is_secret_of_IsNamed :
      (names : List String) (k : String)
      → IsNamed names k
      → is_secret to_lower (mask_set to_lower names) k ≡ true
  unfolding is_secret mask_set
  is_secret_of_IsNamed names k (f, named, same) =
      contains-map names f (normalize_key to_lower k) named same

  IsNamed_of_contains :
      (names : List String) (k : String)
      → contains (map (normalize_key to_lower) names) k ≡ true
      → (f : String) × (contains names f ≡ true) × (normalize_key to_lower f ≡ k)
  unfolding contains
  IsNamed_of_contains [] k h = cc
  IsNamed_of_contains (n ∷ names) k h = elim (Bool-cases (normalize_key to_lower n == k)) [
    | inl here ↦ (n, ground (arith, eq_iff n n), (eq_iff (normalize_key to_lower n) k).0 here)
    | inr there ↦
        let (f, named, same) = IsNamed_of_contains names k (ground arith) in (f, ground arith, same)
  ]

  is_secret_of_free :
      (names : List String) (k : String)
      → ¬ IsNamed names k
      → is_secret to_lower (mask_set to_lower names) k ≡ false
  unfolding is_secret mask_set
  is_secret_of_free names k free =
      elim (Bool-cases (is_secret to_lower (mask_set to_lower names) k)) [
        | inr plain ↦ plain
        | inl secret ↦ absurd (free (IsNamed_of_contains names (normalize_key to_lower k) secret))
      ]

  field_clean :
      (names : List String) (k : String) (v : Json)
      → let set = mask_set to_lower names in
        ((if is_secret to_lower set k then redacted else mask to_lower set v) ≡ redacted)
        ⊎ ¬ IsNamed names k
  field_clean names k v = elim (Bool-cases (is_secret to_lower (mask_set to_lower names) k)) [
    | inl secret ↦ inl (rw secret refl)
    | inr plain ↦ inr (λ named. cc (is_secret_of_IsNamed names k named))
  ]

  module _ (names : List String) where
    mutual
      unfolding mask IsFree

      mask_free :
          (v : Json) → IsFree (IsNamed names) v → mask to_lower (mask_set to_lower names) v ≡ v
      mask_free null h = refl
      mask_free (bool b) h = refl
      mask_free (number n) h = refl
      mask_free (string s) h = refl
      mask_free (array xs) h = ap array (mask_items_free xs h)
      mask_free (object fs) h = ap object (mask_fields_free fs h)

      mask_items_free :
          (xs : Items)
          → IsFreeItems (IsNamed names) xs
          → mask_items to_lower (mask_set to_lower names) xs ≡ xs
      mask_items_free nil h = refl
      mask_items_free (cons x xs) h = cc (mask_free x h.0, mask_items_free xs h.1)

      mask_fields_free :
          (fs : Fields)
          → IsFreeFields (IsNamed names) fs
          → mask_fields to_lower (mask_set to_lower names) fs ≡ fs
      mask_fields_free end h = refl
      mask_fields_free (field k v fs) h =
          rw (is_secret_of_free names k h.0) (cc (mask_free v h.1, mask_fields_free fs h.2))

    mutual
      unfolding mask IsClean

      mask-IsClean :
          (v : Json) → IsClean (IsNamed names) (mask to_lower (mask_set to_lower names) v)
      mask-IsClean null = tt
      mask-IsClean (bool b) = tt
      mask-IsClean (number n) = tt
      mask-IsClean (string s) = tt
      mask-IsClean (array xs) = mask_items-clean xs
      mask-IsClean (object fs) = mask_fields-clean fs

      mask_items-clean :
          (xs : Items)
          → IsCleanItems (IsNamed names) (mask_items to_lower (mask_set to_lower names) xs)
      mask_items-clean nil = tt
      mask_items-clean (cons x xs) = (mask-IsClean x, mask_items-clean xs)

      mask_fields-clean :
          (fs : Fields)
          → IsCleanFields (IsNamed names) (mask_fields to_lower (mask_set to_lower names) fs)
      mask_fields-clean end = tt
      mask_fields-clean (field k v fs) = (
        field_clean names k v,
        if_elim (IsClean (IsNamed names)) (is_secret to_lower (mask_set to_lower names) k) (λ _. tt)
            (λ _. mask-IsClean v),
        mask_fields-clean fs,
      )

    mask_root-IsClean :
        (v : Json) → IsClean (IsNamed names) (mask_root to_lower (mask_set to_lower names) v)
    unfolding mask_root IsClean
    mask_root-IsClean (string s) = tt
    mask_root-IsClean (number n) = tt
    mask_root-IsClean (bool b) = tt
    mask_root-IsClean null = mask-IsClean null
    mask_root-IsClean (array xs) = mask-IsClean (array xs)
    mask_root-IsClean (object fs) = mask-IsClean (object fs)

  -- What MaskSecrets returns for a text that is not empty: the placeholder for an unreadable one, or
  -- the encoding of a value in which, at every depth, each key that reads like a built-in name or a
  -- configured one, up to case and underscores, holds "[REDACTED]".
  pub mask_secrets-IsClean :
      (decode : String → Option Json) (encode : Json → Option String) (raw : String)
      (extra : List String)
      → raw ≢ ""
      → let out = mask_secrets to_lower decode encode raw extra in
        (out ≡ unparseable)
        ⊎ ((w : Json) × (encode w ≡ some out) × IsClean (IsNamed (default_mask_fields ++ extra)) w)
  unfolding mask_secrets
  mask_secrets-IsClean decode encode raw extra some_text = elim (Option-cases (decode raw)) [
    | inl unread ↦ inl (ground (arith, eq_iff raw ""))
    | inr (v, read) ↦
        let w = mask_root to_lower (mask_set to_lower (default_mask_fields ++ extra)) v in
        elim (Option-cases (encode w)) [
          | inl failed ↦ inl (ground (arith, eq_iff raw ""))
          | inr (out, written) ↦
              inr (
                w,
                ground (arith, eq_iff raw ""),
                mask_root-IsClean (default_mask_fields ++ extra) v,
              )
        ]
  ]

  -- Nothing else is touched: an object in which no key, at any depth, reads like one of the names is
  -- returned as it was decoded, numbers with their text.
  pub mask_secrets_free :
      (decode : String → Option Json) (encode : Json → Option String) (raw : String)
      (extra : List String) (fs : Fields) (out : String)
      → raw ≢ ""
      → decode raw ≡ some (object fs)
      → encode (object fs) ≡ some out
      → IsFree (IsNamed (default_mask_fields ++ extra)) (object fs)
      → mask_secrets to_lower decode encode raw extra ≡ out
  unfolding mask_secrets mask_root
  mask_secrets_free decode encode raw extra fs out some_text read written free =
      ground (arith, eq_iff raw "", mask_free (default_mask_fields ++ extra) (object fs) free)
