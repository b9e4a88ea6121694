-- ===== src/Mcp/Schema/Portable.antt =====
-- mcp/ir.go: the shape of every schema that is made of a message.
use gortexa.Common.{
  ℕ, zero, suc, String, string_eq, true, false, List, [], ◌∷◌, ◌++◌, ◌≡◌, ◌⊎◌, arith, refl, All,
  ◌==◌, ◌||◌, Option, none, some, Bool-cases, inl, inr, subst, if◌then◌else◌, Bool, beq_refl,
  if_elim,
}
use text.Mathlib.TextEquality.{eq_iff}
use gortexa.Common.Result.{Result, ok, err, Result-cases}
use gortexa.Mcp.Schema.{
  Facts, plain, Schema, node, Props, end, prop, Nested, absent, items, Additional, closed, free,
  values, SchemaError, Field, Oneof, Message, Shape, singular, repeated, map_of, put_prop,
  drop_prop, add_field, describe, as_map, as_list, schema_for_field, in_field_of, add_fields,
  finish, schema_for_message, schema_for_singular, AiField, is_marked, validate_requires,
}
use gortexa.Mcp.Schema.Leaves.{Returns, IsLeaf, is_type, schema_for_singular-Returns}

-- Whether an object has a property of a name.
unfoldable pub has_prop : Props → String → Bool
has_prop end name = false
has_prop (prop n s ps) name = n == name || has_prop ps name

-- Properties stand in an object only, and what an object requires or must not be null it has.
unfoldable mutual
  pub IsPortable : Schema → Type 0
  IsPortable (node f ps it ad) =
      (is_type f.kind ≡ true)
      × ((f.kind ≡ "object") ⊎ (ps ≡ end))
      × All (λ n. has_prop ps n ≡ true) f.required
      × All (λ n. has_prop ps n ≡ true) f.non_nullable
      × AllPortable ps
      × NestedPortable it
      × AdditionalPortable ad

  pub AllPortable : Props → Type 0
  AllPortable end = Unit
  AllPortable (prop n s ps) = IsPortable s × AllPortable ps

  pub NestedPortable : Nested → Type 0
  NestedPortable absent = Unit
  NestedPortable (items s) = IsPortable s

  pub AdditionalPortable : Additional → Type 0
  AdditionalPortable closed = Unit
  AdditionalPortable (free b) = Unit
  AdditionalPortable (values s) = IsPortable s

abbrev Named : Props → List String → Type 0
Named ps = All (λ n. has_prop ps n ≡ true)

IsLeaf-IsPortable : (s : Schema) → IsLeaf s → IsPortable s
unfolding IsPortable
IsLeaf-IsPortable (node f end absent closed) (kind, none_required, none_null, o) =
    (kind, inr refl, rw none_required tt, rw none_null tt, tt, tt, tt)
IsLeaf-IsPortable (node f end absent (free b)) (kind, none_required, none_null, o) =
    (kind, inr refl, rw none_required tt, rw none_null tt, tt, tt, tt)
IsLeaf-IsPortable (node f end absent (values s)) h = absurd h.3
IsLeaf-IsPortable (node f end (items s) ad) h = absurd h
IsLeaf-IsPortable (node f (prop k s ps) it ad) h = absurd h

has_prop-drop_prop :
    (name n : String) (ps : Props)
    → has_prop (drop_prop name ps) n ≡ (if name == n then false else has_prop ps n)
unfolding has_prop drop_prop
has_prop-drop_prop name n end = ground arith
has_prop-drop_prop name n (prop m s ps) =
    ground (arith, has_prop-drop_prop name n ps, eq_iff m name, eq_iff m n, eq_iff name n)

has_prop-put_prop :
    (name n : String) (s : Schema) (ps : Props)
    → has_prop (put_prop name s ps) n ≡ (name == n || has_prop ps n)
unfolding has_prop put_prop
has_prop-put_prop name n s ps = ground (arith, has_prop-drop_prop name n ps)

Named-put_prop :
    (name : String) (s : Schema) (ps : Props) (names : List String)
    → Named ps names
    → Named (put_prop name s ps) names
Named-put_prop name s ps [] a = tt
Named-put_prop name s ps (n ∷ names) a =
    (ground (arith, has_prop-put_prop name n s ps, a.0), Named-put_prop name s ps names a.1)

Named-snoc :
    (ps : Props) (names : List String) (n : String)
    → Named ps names
    → has_prop ps n ≡ true
    → Named ps (names ++ n ∷ [])
Named-snoc ps [] n a h = (h, tt)
Named-snoc ps (m ∷ names) n a h = (a.0, Named-snoc ps names n a.1 h)

drop_prop-AllPortable :
    (name : String) (ps : Props) → AllPortable ps → AllPortable (drop_prop name ps)
unfolding IsPortable drop_prop
drop_prop-AllPortable name end a = tt
drop_prop-AllPortable name (prop n s ps) a =
    if_elim AllPortable (n == name) (λ same. drop_prop-AllPortable name ps a.1)
      (λ other. (a.0, drop_prop-AllPortable name ps a.1))

describe-IsPortable : (a : Option AiField) (s : Schema) → IsPortable s → IsPortable (describe a s)
unfolding IsPortable describe
describe-IsPortable none s h = h
describe-IsPortable (some a) (node f ps it ad) h = elim (Bool-cases (a.description == "")) [
  | inl blank ↦ rw blank h
  | inr given ↦ rw given h
]

as_map-IsPortable :
    (r : Result SchemaError Schema) → Returns IsPortable r → Returns IsPortable (as_map r)
unfolding IsPortable as_map
as_map-IsPortable (ok s) h = (refl, inl refl, tt, tt, tt, tt, h)
as_map-IsPortable (err e) h = tt

as_list-IsPortable :
    (r : Result SchemaError Schema) → Returns IsPortable r → Returns IsPortable (as_list r)
unfolding IsPortable as_list
as_list-IsPortable (ok s) h = (refl, inr refl, tt, tt, tt, h, tt)
as_list-IsPortable (err e) h = tt

put_prop-AllPortable :
    (name : String) (s : Schema) (ps : Props)
    → IsPortable s
    → AllPortable ps
    → AllPortable (put_prop name s ps)
unfolding IsPortable put_prop
put_prop-AllPortable name s ps h a = (h, drop_prop-AllPortable name ps a)

has_prop-put_prop_self :
    (name : String) (s : Schema) (ps : Props) → has_prop (put_prop name s ps) name ≡ true
unfolding has_prop put_prop
has_prop-put_prop_self name s ps = rw (beq_refl name) refl

-- The properties of an object under construction, and the names that it lists.
abbrev Acc : Facts × Props → Type 0
Acc (facts, ps) =
    (facts.kind ≡ "object") × Named ps facts.required × Named ps facts.non_nullable × AllPortable ps

abbrev ReturnsAcc : Result SchemaError (Facts × Props) → Type 0
ReturnsAcc (ok acc) = Acc acc
ReturnsAcc (err e) = Unit

add_field-Acc :
    (f : Field) (s : Schema) (acc : Facts × Props)
    → IsPortable s
    → Acc acc
    → Acc (add_field f s acc)
unfolding add_field
add_field-Acc f s (facts, ps) h (kind, required, non_null, all) =
    let described : Schema = describe f.ai_field s in
    let put : Props = put_prop f.json_name described ps in
    let mine : has_prop put f.json_name ≡ true = has_prop-put_prop_self f.json_name described ps in
    let required' : Named put facts.required =
      Named-put_prop f.json_name described ps facts.required required in
    let non_null' : Named put facts.non_nullable =
      Named-put_prop f.json_name described ps facts.non_nullable non_null in
    (
      kind,
      if_elim (Named put) (is_marked f.ai_field)
          (λ marked. Named-snoc put facts.required f.json_name required' mine) (λ bare. required'),
      if_elim (Named put) (validate_requires f) (λ needed. (mine, non_null'))
          (λ free_to_miss. non_null'),
      put_prop-AllPortable f.json_name described ps (describe-IsPortable f.ai_field s h) all,
    )

-- What a level makes is portable when what the level below makes is.
module _ (deeper : String → Result SchemaError Schema) where
  AllReturn : Type 0
  AllReturn = (name : String) → Returns IsPortable (deeper name)

  schema_for_field-IsPortable :
      AllReturn → (shape : Shape) → Returns IsPortable (schema_for_field deeper shape)
  unfolding schema_for_field AllReturn
  schema_for_field-IsPortable below (singular k) =
      schema_for_singular-Returns IsPortable deeper k IsLeaf-IsPortable below
  schema_for_field-IsPortable below (repeated k) =
      as_list-IsPortable (schema_for_singular deeper k)
        (schema_for_singular-Returns IsPortable deeper k IsLeaf-IsPortable below)
  schema_for_field-IsPortable below (map_of k) =
      as_map-IsPortable (schema_for_singular deeper k)
        (schema_for_singular-Returns IsPortable deeper k IsLeaf-IsPortable below)

  add_fields-Acc :
      (fs : List Field) (acc : Facts × Props)
      → AllReturn
      → Acc acc
      → ReturnsAcc (add_fields deeper fs acc)
  unfolding add_fields in_field_of
  add_fields-Acc [] acc below a = a
  add_fields-Acc (f ∷ fs) acc below a = elim (Result-cases (schema_for_field deeper f.shape)) [
    | inl (s, made) ↦
        let h : Returns IsPortable (ok s) =
          subst (Returns IsPortable) made (schema_for_field-IsPortable below f.shape) in
        rw (made, add_fields)
          (add_fields-Acc fs (add_field f s acc) below (add_field-Acc f s acc h a))
    | inr (e, failed) ↦ rw (failed, add_fields) tt
  ]

finish-IsPortable :
    (os : List Oneof) (r : Result SchemaError (Facts × Props))
    → ReturnsAcc r
    → Returns IsPortable (finish os r)
unfolding finish IsPortable
finish-IsPortable os (ok (facts, ps)) (kind, required, non_null, all) =
    (rw kind refl, inl kind, required, non_null, all, tt, tt)
finish-IsPortable os (err e) a = tt

-- A schema that is made of a message is portable at every level: its type is a known one, only
-- objects have properties, and each name that is required or must not be null is one of them.
pub schema_for_message-IsPortable :
    (messages : String → Message) (left : ℕ) (name : String)
    → Returns IsPortable (schema_for_message messages left name)
unfolding schema_for_message AllReturn AllPortable
schema_for_message-IsPortable messages zero name = tt
schema_for_message-IsPortable messages (suc left) name =
    let fields = (messages name).fields in
    let below = schema_for_message-IsPortable messages left in
    finish-IsPortable (messages name).oneofs
      (add_fields (schema_for_message messages left) fields (plain "object", end))
      (add_fields-Acc (schema_for_message messages left) fields (plain "object", end) below
        (refl, tt, tt, tt))
