-- ===== src/Common/Members.antt =====
-- slices.Contains, and the test for a key of a set.
use Prim.Native.String.{String}
use mathlib.Core.Path.{◌≡◌, refl, ◌∙◌}
use mathlib.Core.Logic.{inl, inr}
use mathlib.Core.Bool.{Bool, true, false, ◌||◌}
use mathlib.Core.List.{List, [], ◌∷◌, ◌++◌}
use text.Mathlib.TextEquality.{eq_iff}
use native.Mathlib.Omega.{arith}
use gortexa.Common.Tests.{Eq, ◌==◌, string_eq, Bool-cases, beq_refl}
use gortexa.Common.Text.{sort_by, sorted_insert, text_le}

module _ {ℓ} {A : Type ℓ} ⦃keys : Eq A⦄ where
  unfoldable pub contains : List A → A → Bool
  contains [] x = false
  contains (y ∷ ys) x = y == x || contains ys x

  -- What a list contains.
  pub contains-cons_lem :
      (y : A) (ys : List A) (x : A) → contains ys x ≡ true → contains (y ∷ ys) x ≡ true
  unfolding contains
  contains-cons_lem y ys x h = ground (arith, h)

  pub contains_head : (x : A) (xs : List A) → contains (x ∷ xs) x ≡ true
  unfolding contains
  contains_head x xs = rw (beq_refl x) refl

contains-sorted_insert :
    (x : String) (ys : List String) (z : String)
    → contains (sorted_insert (λ s. s) x ys) z ≡ contains (x ∷ ys) z
unfolding contains sorted_insert
contains-sorted_insert x [] z = refl
contains-sorted_insert x (y ∷ ys) z = elim (Bool-cases (text_le x y)) [
  | inl before ↦ rw (before, sorted_insert) refl
  | inr after ↦ rw (after, sorted_insert) (ground (arith, contains-sorted_insert x ys z))
]

-- Sorting keeps what a list contains.
pub contains-sort_by :
    (xs : List String) (z : String) → contains (sort_by (λ s. s) xs) z ≡ contains xs z
unfolding contains sort_by
contains-sort_by [] z = refl
contains-sort_by (x ∷ xs) z =
    contains-sorted_insert x (sort_by (λ s. s) xs) z ∙ ground (arith, contains-sort_by xs z)

contains-snoc {ℓ} :
    {A : Type ℓ} ⦃keys : Eq A⦄ (xs : List A) (x y : A)
    → (x == y) ≡ false
    → contains xs y ≡ false
    → contains (xs ++ x ∷ []) y ≡ false
unfolding contains
contains-snoc [] x y h k = ground (arith, h)
contains-snoc (z ∷ zs) x y h k = ground (arith, k, contains-snoc zs x y h)

-- No key stands twice in a list.
abbrev pub IsDistinct {ℓ} : {A : Type ℓ} ⦃keys : Eq A⦄ → List A → Type 0
IsDistinct [] = Unit
IsDistinct (x ∷ xs) = (contains xs x ≡ false) × IsDistinct xs

sorted_insert-IsDistinct :
    (x : String) (ys : List String)
    → contains ys x ≡ false
    → IsDistinct ys
    → IsDistinct (sorted_insert (λ s. s) x ys)
unfolding sorted_insert contains
sorted_insert-IsDistinct x [] h d = (refl, tt)
sorted_insert-IsDistinct x (y ∷ ys) h d = elim (Bool-cases (text_le x y)) [
  | inl before ↦ rw (before, sorted_insert) (h, d)
  | inr after ↦
      rw (after, sorted_insert)
        (
          ground (arith, contains-sorted_insert x ys y, h, d.0, eq_iff x y, eq_iff y x),
          sorted_insert-IsDistinct x ys (ground (arith, h)) d.1,
        )
]

pub sort_by-IsDistinct : (xs : List String) → IsDistinct xs → IsDistinct (sort_by (λ s. s) xs)
unfolding sort_by
sort_by-IsDistinct [] d = tt
sort_by-IsDistinct (x ∷ xs) d =
    sorted_insert-IsDistinct x (sort_by (λ s. s) xs) (contains-sort_by xs x ∙ d.0)
      (sort_by-IsDistinct xs d.1)

pub snoc-IsDistinct {ℓ} :
    {A : Type ℓ} ⦃keys : Eq A⦄ (xs : List A) (x : A)
    → contains xs x ≡ false
    → IsDistinct xs
    → IsDistinct (xs ++ x ∷ [])
unfolding contains
snoc-IsDistinct [] x h d = (refl, tt)
snoc-IsDistinct ⦃keys⦄ (y ∷ ys) x h d = (
  contains-snoc ys x y (ground (arith, h, keys.decides x y, keys.decides y x)) d.0,
  snoc-IsDistinct ys x (ground (arith, h)) d.1,
)
