-- ===== src/Mcp/Schema/Depth.antt =====
-- mcp/ir.go: how deep a schema nests.
use Prim.Native.Nat.{max}
use gortexa.Common.{
  ℕ, zero, suc, String, string_eq, List, [], ◌∷◌, ◌*◌, ◌≤◌, ◌≡◌, arith, refl, Option, none, some,
  subst, inl, inr,
}
use gortexa.Common.Result.{Result, ok, err, Result-cases}
use gortexa.Mcp.Schema.{
  Facts, plain, Schema, node, Props, end, prop, Nested, absent, items, Additional, closed, free,
  values, SchemaError, Field, Oneof, Message, Shape, singular, repeated, map_of, put_prop,
  drop_prop, add_field, describe, as_map, as_list, schema_for_field, in_field_of, add_fields,
  finish, schema_for_message, schema_for_singular, AiField,
}
use gortexa.Mcp.Schema.Leaves.{Returns, Returns-weaken, IsLeaf, schema_for_singular-Returns}

-- The levels of a schema, a leaf having one.
unfoldable mutual
  pub depth : Schema → ℕ
  depth (node f ps it ad) = suc (max (depth_props ps) (max (depth_nested it) (depth_additional ad)))

  pub depth_props : Props → ℕ
  depth_props end = 0
  depth_props (prop n s ps) = max (depth s) (depth_props ps)

  pub depth_nested : Nested → ℕ
  depth_nested absent = 0
  depth_nested (items s) = depth s

  pub depth_additional : Additional → ℕ
  depth_additional closed = 0
  depth_additional (free b) = 0
  depth_additional (values s) = depth s

IsLeaf-depth : (n : ℕ) (s : Schema) → IsLeaf s → depth s ≤ suc n
unfolding depth
IsLeaf-depth n (node f end absent closed) h = omega arith
IsLeaf-depth n (node f end absent (free b)) h = omega arith
IsLeaf-depth n (node f end absent (values s)) h = absurd h.3
IsLeaf-depth n (node f end (items s) ad) h = absurd h
IsLeaf-depth n (node f (prop k s ps) it ad) h = absurd h

depth-drop_prop : (name : String) (ps : Props) → depth_props (drop_prop name ps) ≤ depth_props ps
unfolding depth drop_prop
depth-drop_prop name end = omega arith
depth-drop_prop name (prop n s ps) = ground (arith, depth-drop_prop name ps)

depth-describe : (a : Option AiField) (s : Schema) → depth (describe a s) ≡ depth s
unfolding depth describe
depth-describe none s = refl
depth-describe (some a) (node f ps it ad) = refl

-- The depth of what a level makes, over a bound on the level below.
module _ (bound : ℕ) (deeper : String → Result SchemaError Schema) where
  AllBounded : Type 0
  AllBounded = (name : String) → Returns (λ s. depth s ≤ suc bound) (deeper name)

  depth-as_map :
      (r : Result SchemaError Schema)
      → Returns (λ s. depth s ≤ suc bound) r
      → Returns (λ s. depth s ≤ suc (suc bound)) (as_map r)
  unfolding depth as_map
  depth-as_map (ok s) h = omega arith
  depth-as_map (err e) h = tt

  depth-as_list :
      (r : Result SchemaError Schema)
      → Returns (λ s. depth s ≤ suc bound) r
      → Returns (λ s. depth s ≤ suc (suc bound)) (as_list r)
  unfolding depth as_list
  depth-as_list (ok s) h = omega arith
  depth-as_list (err e) h = tt

  depth-schema_for_field :
      AllBounded
      → (shape : Shape) → Returns (λ s. depth s ≤ suc (suc bound)) (schema_for_field deeper shape)
  unfolding schema_for_field AllBounded
  depth-schema_for_field below (singular k) =
      Returns-weaken (λ s. depth s ≤ suc bound) (λ s. depth s ≤ suc (suc bound))
        (schema_for_singular deeper k) (λ s h. omega (arith, h))
        (schema_for_singular-Returns (λ s. depth s ≤ suc bound) deeper k (IsLeaf-depth bound) below)
  depth-schema_for_field below (repeated k) =
      depth-as_list (schema_for_singular deeper k)
        (schema_for_singular-Returns (λ s. depth s ≤ suc bound) deeper k (IsLeaf-depth bound) below)
  depth-schema_for_field below (map_of k) =
      depth-as_map (schema_for_singular deeper k)
        (schema_for_singular-Returns (λ s. depth s ≤ suc bound) deeper k (IsLeaf-depth bound) below)

  abbrev Acc : Facts × Props → Type 0
  Acc acc = depth_props acc.1 ≤ suc (suc bound)

  abbrev ReturnsAcc : Result SchemaError (Facts × Props) → Type 0
  ReturnsAcc (ok acc) = Acc acc
  ReturnsAcc (err e) = Unit

  depth-add_field :
      (f : Field) (s : Schema) (acc : Facts × Props)
      → depth s ≤ suc (suc bound)
      → Acc acc
      → Acc (add_field f s acc)
  unfolding depth add_field put_prop
  depth-add_field f s (facts, ps) h a =
      omega (arith, depth-describe f.ai_field s, depth-drop_prop f.json_name ps)

  depth-add_fields :
      (fs : List Field) (acc : Facts × Props)
      → AllBounded
      → Acc acc
      → ReturnsAcc (add_fields deeper fs acc)
  unfolding add_fields in_field_of
  depth-add_fields [] acc below a = a
  depth-add_fields (f ∷ fs) acc below a = elim (Result-cases (schema_for_field deeper f.shape)) [
    | inl (s, made) ↦
        let h : Returns (λ s. depth s ≤ suc (suc bound)) (ok s) =
          subst (Returns (λ s. depth s ≤ suc (suc bound))) made
            (depth-schema_for_field below f.shape) in
        rw (made, add_fields)
          (depth-add_fields fs (add_field f s acc) below (depth-add_field f s acc h a))
    | inr (e, failed) ↦ rw (failed, add_fields) tt
  ]

  depth-finish :
      (os : List Oneof) (r : Result SchemaError (Facts × Props))
      → ReturnsAcc r
      → Returns (λ s. depth s ≤ suc (suc (suc bound))) (finish os r)
  unfolding finish depth
  depth-finish os (ok (facts, ps)) a = omega arith
  depth-finish os (err e) a = tt

-- A schema that is made of a message, whatever messages hold it or it holds, itself included, nests
-- at most twice as many levels as the depth that is left, and one more.
pub depth-schema_for_message :
    (messages : String → Message) (left : ℕ) (name : String)
    → Returns (λ s. depth s ≤ suc (2 * left)) (schema_for_message messages left name)
unfolding schema_for_message depth AllBounded
depth-schema_for_message messages zero name = tt
depth-schema_for_message messages (suc left) name =
    let deeper = schema_for_message messages left in
    let fields = (messages name).fields in
    let below = depth-schema_for_message messages left in
    Returns-weaken (λ s. depth s ≤ suc (suc (suc (2 * left)))) (λ s. depth s ≤ suc (2 * suc left))
      (finish (messages name).oneofs (add_fields deeper fields (plain "object", end)))
      (λ s h. omega (arith, h))
      (depth-finish (2 * left) deeper (messages name).oneofs
        (add_fields deeper fields (plain "object", end))
        (depth-add_fields (2 * left) deeper fields (plain "object", end) below (omega arith)))
