-- ===== src/Common/Text.antt =====
-- Go's strings: the code points of a text, its length in bytes, the order of `<` and sort.Strings.
use Prim.Native.Char.{code}
use Prim.Native.Nat.{ℕ, ◌+◌}
use Prim.Native.String.{String, ◌++◌}
use mathlib.Core.Path.{◌≡◌, refl}
use mathlib.Core.Logic.{inl, inr}
use mathlib.Core.Bool.{Bool, true, false, ◌&&◌, ◌||◌}
use mathlib.Core.List.{List, [], ◌∷◌}
use native.Mathlib.Omega.{arith}
use gortexa.Common.Lists.{All}
use gortexa.Common.Tests.{ltb, nat_eq, ◌==◌, if◌then◌else◌, Bool-cases}

abbrev pub codes : String → List ℕ
codes String.[] = []
codes (String.◌∷◌ c s) = code c ∷ codes s

-- The texts one after the other.
abbrev pub concat : List String → String
concat [] = ""
concat (s ∷ ss) = s ++ concat ss

-- The bytes of a code point in UTF-8.
abbrev pub utf8_length : ℕ → ℕ
utf8_length c = if ltb c 0x80 then 1 else if ltb c 0x800 then 2 else if ltb c 0x10000 then 3 else 4

-- len(s)
abbrev pub byte_length : List ℕ → ℕ
byte_length [] = 0
byte_length (c ∷ cs) = utf8_length c + byte_length cs

-- a == b
unfoldable pub codes_equal : List ℕ → List ℕ → Bool
codes_equal [] [] = true
codes_equal [] (y ∷ ys) = false
codes_equal (x ∷ xs) [] = false
codes_equal (x ∷ xs) (y ∷ ys) = let rest = codes_equal xs ys in if x == y then rest else false

-- a <= b: the order of the bytes is that of the code points.
unfoldable pub codes_le : List ℕ → List ℕ → Bool
codes_le [] ys = true
codes_le (x ∷ xs) [] = false
codes_le (x ∷ xs) (y ∷ ys) = ltb x y || (x == y && codes_le xs ys)

unfoldable pub text_le : String → String → Bool
unfolding codes_le
text_le s t = codes_le (codes s) (codes t)

pub codes_le-total : (xs ys : List ℕ) → codes_le xs ys ≡ false → codes_le ys xs ≡ true
unfolding codes_le
codes_le-total [] ys h = cc
codes_le-total (x ∷ xs) [] h = refl
codes_le-total (x ∷ xs) (y ∷ ys) h = ground (arith, codes_le-total xs ys)

-- Sorting by a key, as slices.SortFunc and sort.Strings leave a list.
module _ {ℓ} {A : Type ℓ} (key : A → String) where
  unfoldable pub sorted_insert : A → List A → List A
  sorted_insert x [] = x ∷ []
  sorted_insert x (y ∷ ys) =
      let rest = sorted_insert x ys in if text_le (key x) (key y) then x ∷ y ∷ ys else y ∷ rest

  unfoldable pub sort_by : List A → List A
  unfolding sorted_insert
  sort_by [] = []
  sort_by (x ∷ xs) = sorted_insert x (sort_by xs)

  abbrev Head : A → List A → Type 0
  Head x [] = Unit
  Head x (y ∷ ys) = text_le (key x) (key y) ≡ true

  -- Each element is at most the next.
  abbrev pub IsSorted : List A → Type 0
  IsSorted [] = Unit
  IsSorted (x ∷ xs) = Head x xs × IsSorted xs

  text_le-total : (s t : String) → text_le s t ≡ false → text_le t s ≡ true
  unfolding text_le
  text_le-total s t h = codes_le-total (codes s) (codes t) h

  sorted_insert-Head :
      (x y : A) (ys : List A)
      → text_le (key y) (key x) ≡ true
      → Head y ys
      → Head y (sorted_insert x ys)
  unfolding sorted_insert
  sorted_insert-Head x y [] h head = h
  sorted_insert-Head x y (z ∷ ys) h head = elim (Bool-cases (text_le (key x) (key z))) [
    | inl before ↦ rw (before, sorted_insert) h
    | inr after ↦ rw (after, sorted_insert) head
  ]

  sorted_insert-IsSorted : (x : A) (ys : List A) → IsSorted ys → IsSorted (sorted_insert x ys)
  unfolding sorted_insert
  sorted_insert-IsSorted x [] s = (tt, tt)
  sorted_insert-IsSorted x (y ∷ ys) s = elim (Bool-cases (text_le (key x) (key y))) [
    | inl before ↦ rw (before, sorted_insert) (before, s)
    | inr after ↦
        rw (after, sorted_insert)
          (
            sorted_insert-Head x y ys (text_le-total (key x) (key y) after) s.0,
            sorted_insert-IsSorted x ys s.1,
          )
  ]

  pub sort_by-IsSorted : (xs : List A) → IsSorted (sort_by xs)
  unfolding sort_by
  sort_by-IsSorted [] = tt
  sort_by-IsSorted (x ∷ xs) = sorted_insert-IsSorted x (sort_by xs) (sort_by-IsSorted xs)

  sorted_insert-All {κ} :
      (P : A → Type κ) (x : A) (ys : List A) → P x → All P ys → All P (sorted_insert x ys)
  unfolding sorted_insert
  sorted_insert-All P x [] p ps = (p, ps)
  sorted_insert-All P x (y ∷ ys) p ps = elim (Bool-cases (text_le (key x) (key y))) [
    | inl before ↦ rw (before, sorted_insert) (p, ps)
    | inr after ↦ rw (after, sorted_insert) (ps.0, sorted_insert-All P x ys p ps.1)
  ]

  pub sort_by-All {κ} : (P : A → Type κ) (xs : List A) → All P xs → All P (sort_by xs)
  unfolding sort_by
  sort_by-All P [] ps = ps
  sort_by-All P (x ∷ xs) ps = sorted_insert-All P x (sort_by xs) ps.0 (sort_by-All P xs ps.1)
