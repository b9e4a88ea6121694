-- ===== src/Common/Dict.antt =====
-- Go's maps, as association lists that hold a key once. The order of the entries stands for the
-- order in which the runtime visits them, which Go leaves open: no theorem fixes it.
use Prim.Native.Nat.{suc, ◌≤◌, ◌<◌}
use mathlib.Core.Path.{◌≡◌}
use mathlib.Core.Logic.{inl, inr}
use mathlib.Core.Option.{Option, none, some}
use mathlib.Core.List.{List, [], ◌∷◌}
use native.Mathlib.Omega.{arith}
use gortexa.Common.Tests.{Eq, ◌==◌, if◌then◌else◌, Bool-cases}
use gortexa.Common.Lists.{length}

abbrev pub Dict {ℓ κ} : Type ℓ → Type κ → Type (ℓ ⊔ κ)
Dict K V = List (K × V)

module _ {ℓ κ} {K : Type ℓ} {V : Type κ} ⦃e : Eq K⦄ where
  -- m[k], with the missing key as `none`
  unfoldable pub lookup : K → Dict K V → Option V
  lookup k [] = none
  lookup k ((at, here) ∷ rest) = if at == k then some here else lookup k rest

  -- delete(m, k)
  unfoldable pub erase : K → Dict K V → Dict K V
  erase k [] = []
  erase k ((j, v) ∷ m) = let rest = erase k m in if j == k then rest else (j, v) ∷ rest

  -- m[k] = v
  unfoldable pub insert : K → V → Dict K V → Dict K V
  insert k v m = (k, v) ∷ erase k m

  pub lookup-erase :
      (k j : K) (m : Dict K V) → lookup j (erase k m) ≡ (if k == j then none else lookup j m)
  unfolding lookup erase
  lookup-erase k j [] = ground arith
  lookup-erase k j ((i, v) ∷ m) =
      ground (arith, lookup-erase k j m, e.decides i k, e.decides i j, e.decides k j)

  pub lookup-insert :
      (i k : K) (w : V) (d : Dict K V)
      → lookup k (insert i w d) ≡ (if i == k then some w else lookup k d)
  unfolding lookup insert
  lookup-insert i k w d = elim (Bool-cases (i == k)) [
    | inl hit ↦ ground arith
    | inr miss ↦ ground (arith, lookup-erase i k d)
  ]

  pub length-erase-le : (k : K) (m : Dict K V) → length (erase k m) ≤ length m
  unfolding erase
  length-erase-le k [] = omega arith
  length-erase-le k ((j, v) ∷ m) = ground (arith, length-erase-le k m)

  -- To delete a key that is there frees a place.
  pub length-erase-lt :
      (k : K) (m : Dict K V) (v : V) → lookup k m ≡ some v → length (erase k m) < length m
  unfolding lookup erase
  length-erase-lt k [] v h = cc
  length-erase-lt k ((j, w) ∷ m) v h = ground (arith, length-erase-lt k m v, length-erase-le k m)

  pub length-insert-le : (k : K) (v : V) (m : Dict K V) → length (insert k v m) ≤ suc (length m)
  unfolding insert
  length-insert-le k v m = omega (arith, length-erase-le k m)

  -- To write a key that is there takes no place.
  pub length-insert_present :
      (k : K) (v w : V) (m : Dict K V) → lookup k m ≡ some w → length (insert k v m) ≤ length m
  unfolding insert
  length-insert_present k v w m h = omega (arith, length-erase-lt k m w h)

  pub ruleset dict_laws = (lookup-erase, lookup-insert)
