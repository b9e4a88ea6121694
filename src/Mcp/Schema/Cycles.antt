-- ===== src/Mcp/Schema/Cycles.antt =====
-- mcp/ir.go: messages that hold themselves.
use gortexa.Common.{
  ℕ, zero, suc, String, none, some, List, [], ◌∷◌, ◌≡◌, refl, ap, ◌∙◌, get_elem?, inl, inr,
}
use mathlib.Core.Option.{some-injective}
use gortexa.Common.Result.{Result, err, Result-cases}
use gortexa.Mcp.Schema.{
  Facts, Props, plain, end, Schema, SchemaError, too_deep, in_field, Field, Message, Shape, Kind,
  singular, repeated, map_of, message, add_field, as_map, as_list, schema_for_field,
  schema_for_singular, in_field_of, add_fields, finish, schema_for_message, well_known, Oneof,
}

abbrev pub kind_of : Shape → Kind
kind_of (singular k) = k
kind_of (repeated k) = k
kind_of (map_of k) = k

abbrev pub Fails {ℓ} : {A : Type ℓ} → Result SchemaError A → Type ℓ
Fails r = (e : SchemaError) × (r ≡ err e)

schema_for_field-Fails :
    (deeper : String → Result SchemaError Schema) (shape : Shape) (name : String)
    → kind_of shape ≡ message name
    → well_known name ≡ none
    → Fails (deeper name)
    → Fails (schema_for_field deeper shape)
unfolding schema_for_field schema_for_singular as_list as_map
schema_for_field-Fails deeper (singular k) name h plain_name (e, fails) =
    rw (h, plain_name, fails) (e, refl)
schema_for_field-Fails deeper (repeated k) name h plain_name (e, fails) =
    rw (h, plain_name, fails) (e, refl)
schema_for_field-Fails deeper (map_of k) name h plain_name (e, fails) =
    rw (h, plain_name, fails) (e, refl)

module _ (deeper : String → Result SchemaError Schema) where
  add_fields-Fails :
      (fs : List Field) (i : ℕ) (f : Field) (acc : Facts × Props)
      → get_elem? fs i ≡ some f
      → Fails (schema_for_field deeper f.shape)
      → Fails (add_fields deeper fs acc)
  unfolding add_fields in_field_of
  add_fields-Fails [] i f acc at fails = cc
  add_fields-Fails (g ∷ fs) zero f acc at (e, fails) =
      let failed : schema_for_field deeper g.shape ≡ err e =
        ap (λ h. schema_for_field deeper h.shape) (some-injective g f at) ∙ fails in
      rw (failed, add_fields) (in_field g.full_name e, refl)
  add_fields-Fails (g ∷ fs) (suc i) f acc at fails =
      elim (Result-cases (schema_for_field deeper g.shape)) [
        | inl (s, made) ↦
            rw (made, add_fields) (add_fields-Fails fs i f (add_field g s acc) at fails)
        | inr (e, failed) ↦ rw (failed, add_fields) (in_field g.full_name e, refl)
      ]

finish-Fails :
    (os : List Oneof) (r : Result SchemaError (Facts × Props)) → Fails r → Fails (finish os r)
unfolding finish
finish-Fails os r (e, h) = rw h (e, refl)

-- If each message of some messages has a field of one of them, one value, list or map, that is of no
-- well-known type, then none of them has a schema: each call ends, at whatever depth, with an error.
pub schema_for_message-cyclic :
    (messages : String → Message) (IsCyclic : String → Type 0)
    → ((name : String)
        → IsCyclic name
        → (i : ℕ) × (f : Field) × (inner : String) × (get_elem? (messages name).fields i ≡ some f)
          × (kind_of f.shape ≡ message inner)
          × (well_known inner ≡ none)
          × IsCyclic inner)
    → (left : ℕ) (name : String) → IsCyclic name
    → Fails (schema_for_message messages left name)
unfolding schema_for_message
schema_for_message-cyclic messages IsCyclic holds zero name c = (too_deep name, refl)
schema_for_message-cyclic messages IsCyclic holds (suc left) name c =
    let (i, f, inner, at, kind, plain_name, c') = holds name c in
    let deeper = schema_for_message messages left in
    finish-Fails (messages name).oneofs
      (add_fields deeper (messages name).fields (plain "object", end))
      (add_fields-Fails deeper (messages name).fields i f (plain "object", end) at
        (schema_for_field-Fails deeper f.shape inner kind plain_name
          (schema_for_message-cyclic messages IsCyclic holds left inner c')))
