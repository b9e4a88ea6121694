-- ===== src/Mcp/Schema/Leaves.antt =====
-- mcp/ir.go: the schemas that hold no other.
use gortexa.Common.{
  String, string_eq, Bool, true, Option, none, some, [], ◌∷◌, ◌==◌, ◌||◌, ◌≡◌, refl, if_elim,
}
use gortexa.Common.{All}
use gortexa.Common.Dict.{Dict, lookup}
use gortexa.Common.Result.{Result, ok, err}
use gortexa.Mcp.Schema.{
  plain, of_kind, Schema, node, end, absent, Additional, closed, free, values, SchemaError,
  well_known, well_known_table, Kind, message, bool, int32, int64, float, text, enumeration, other,
  known_or, schema_for_singular,
}

-- What holds of a result that is no error.
abbrev pub Returns {ℓ} : (Schema → Type ℓ) → Result SchemaError Schema → Type ℓ
Returns P (ok s) = P s
Returns P (err e) = Unit

pub Returns-weaken {ℓ κ} :
    (P : Schema → Type ℓ) (Q : Schema → Type κ) (r : Result SchemaError Schema)
    → ((s : Schema) → P s → Q s)
    → Returns P r
    → Returns Q r
Returns-weaken P Q (ok s) f h = f s h
Returns-weaken P Q (err e) f h = tt

abbrev pub IsOpen : Additional → Type 0
IsOpen closed = Unit
IsOpen (free b) = Unit
IsOpen (values s) = ⊥

-- The types of JSON schema that the portable subset has.
abbrev pub is_type : String → Bool
is_type kind =
    kind == "object"
    || kind == "array"
    || kind == "string"
    || kind == "boolean"
    || kind == "integer"
    || kind == "number"

abbrev pub IsLeaf : Schema → Type 0
IsLeaf (node f end absent ad) =
    (is_type f.kind ≡ true) × (f.required ≡ []) × (f.non_nullable ≡ []) × IsOpen ad
IsLeaf (node f ps it ad) = ⊥

abbrev IsKnown : Option (Result SchemaError Schema) → Type 0
IsKnown none = Unit
IsKnown (some r) = Returns IsLeaf r

of_kind-IsLeaf : (kind : String) → is_type kind ≡ true → Returns IsLeaf (ok (of_kind kind))
of_kind-IsLeaf kind h = (h, refl, refl, tt)

lookup-IsKnown :
    (name : String) (table : Dict String (Result SchemaError Schema))
    → All (λ p. Returns IsLeaf p.1) table
    → IsKnown (lookup name table)
unfolding lookup
lookup-IsKnown name [] a = tt
lookup-IsKnown name ((k, r) ∷ table) a =
    if_elim IsKnown (k == name) (λ h. a.0) (λ h. lookup-IsKnown name table a.1)

table-IsLeaf : All (λ p. Returns IsLeaf p.1) well_known_table
table-IsLeaf =
    let one : (kind : String) → is_type kind ≡ true → Returns IsLeaf (ok (of_kind kind)) =
      of_kind-IsLeaf in
    (
      one "string" refl,
      (
        one "string" refl,
        (
          one "boolean" refl,
          (
            one "integer" refl,
            (
              one "integer" refl,
              (
                one "string" refl,
                (
                  one "string" refl,
                  (
                    one "number" refl,
                    (
                      one "number" refl,
                      (
                        one "string" refl,
                        (
                          one "string" refl,
                          ((refl, refl, refl, tt), ((refl, refl, refl, tt), (tt, (tt, tt)))),
                        ),
                      ),
                    ),
                  ),
                ),
              ),
            ),
          ),
        ),
      ),
    )

well_known-IsKnown : (name : String) → IsKnown (well_known name)
unfolding well_known
well_known-IsKnown name = lookup-IsKnown name well_known_table table-IsLeaf

-- A schema for one value is a leaf, or that of a message one level deeper.
module _ {ℓ} (P : Schema → Type ℓ) (deeper : String → Result SchemaError Schema) where
  known_or-Returns :
      (o : Option (Result SchemaError Schema)) (name : String)
      → ((s : Schema) → IsLeaf s → P s)
      → IsKnown o
      → Returns P (deeper name)
      → Returns P (known_or deeper o name)
  unfolding known_or
  known_or-Returns none name leaf k d = d
  known_or-Returns (some (ok s)) name leaf k d = leaf s k
  known_or-Returns (some (err e)) name leaf k d = tt

  pub schema_for_singular-Returns :
      (k : Kind)
      → ((s : Schema) → IsLeaf s → P s)
      → ((name : String) → Returns P (deeper name))
      → Returns P (schema_for_singular deeper k)
  unfolding schema_for_singular
  schema_for_singular-Returns bool leaf d = leaf (of_kind "boolean") (refl, refl, refl, tt)
  schema_for_singular-Returns int32 leaf d = leaf (of_kind "integer") (refl, refl, refl, tt)
  schema_for_singular-Returns int64 leaf d = leaf (of_kind "string") (refl, refl, refl, tt)
  schema_for_singular-Returns float leaf d = leaf (of_kind "number") (refl, refl, refl, tt)
  schema_for_singular-Returns text leaf d = leaf (of_kind "string") (refl, refl, refl, tt)
  schema_for_singular-Returns (enumeration vs) leaf d =
      leaf (node (record (plain "string") { enum = vs }) end absent closed) (refl, refl, refl, tt)
  schema_for_singular-Returns (message name) leaf d =
      known_or-Returns (well_known name) name leaf (well_known-IsKnown name) (d name)
  schema_for_singular-Returns other leaf d = leaf (of_kind "string") (refl, refl, refl, tt)
