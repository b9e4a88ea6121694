-- ===== src/Mcp/Schema.antt =====
-- mcp/ir.go: the portable JSON schema of a protobuf message. The descriptors of protobuf are data: a
-- message is found by its full name, `messages`, and the depth that is left, out of
-- `max_schema_depth`, ends the walk over messages that hold themselves.
mod Descriptors
pub mod Depth
pub mod Cycles
pub mod Leaves
pub mod Portable
pub use Descriptors.*
use gortexa.Common.{
  ℕ, zero, suc, String, string_eq, Bool, true, false, Option, none, some, List, [], ◌∷◌, ◌++◌, ◌==◌,
  ◌&&◌, ◌||◌, not, if◌then◌else◌, leb,
}
use gortexa.Common.Result.{Result, ok, err, ◌>>=◌}
use gortexa.Common.Dict.{Dict, lookup}
use gortexa.Common.Members.{contains}

abbrev pub max_schema_depth : ℕ
max_schema_depth = 8

-- The parts of a JSONSchema that hold no schema. A missing type is "".
pub record Facts : Type 0 where
  pub kind : String
  pub description : String
  pub required : List String
  pub enum : List String
  pub oneof_members : List String
  pub non_nullable : List String

-- JSONSchema. `Nested` is the pointer Items, `Additional` the AdditionalProperties: nil, a Boolean or
-- the schema of a map's values.
mutual
  pub data Schema : Type 0 where
    node : Facts → Props → Nested → Additional → Schema

  pub data Props : Type 0 where
    end : Props
    prop : String → Schema → Props → Props

  pub data Nested : Type 0 where
    absent : Nested
    items : Schema → Nested

  pub data Additional : Type 0 where
    closed : Additional
    free : Bool → Additional
    values : Schema → Additional

abbrev pub plain : String → Facts
plain kind = record {
  kind = kind;
  description = "";
  required = [];
  enum = [];
  oneof_members = [];
  non_nullable = [];
}

abbrev pub of_kind : String → Schema
of_kind kind = node (plain kind) end absent closed

pub data SchemaError : Type 0 where
  too_deep : String → SchemaError
  in_field : String → SchemaError → SchemaError
  unsupported : String → SchemaError

abbrev pub field_mask : Schema
field_mask =
    node
      (record (plain "string") {
        description = "Comma-separated protobuf field paths, e.g. foo.bar,baz.";
      })
      end absent closed

-- The well-known types of schemaForWellKnownOrMessage.
abbrev pub well_known_table : Dict String (Result SchemaError Schema)
well_known_table =
    ("google.protobuf.Timestamp", ok (of_kind "string"))
    ∷ ("google.protobuf.Duration", ok (of_kind "string"))
    ∷ ("google.protobuf.BoolValue", ok (of_kind "boolean"))
    ∷ ("google.protobuf.Int32Value", ok (of_kind "integer"))
    ∷ ("google.protobuf.UInt32Value", ok (of_kind "integer"))
    ∷ ("google.protobuf.Int64Value", ok (of_kind "string"))
    ∷ ("google.protobuf.UInt64Value", ok (of_kind "string"))
    ∷ ("google.protobuf.FloatValue", ok (of_kind "number"))
    ∷ ("google.protobuf.DoubleValue", ok (of_kind "number"))
    ∷ ("google.protobuf.StringValue", ok (of_kind "string"))
    ∷ ("google.protobuf.BytesValue", ok (of_kind "string"))
    ∷ ("google.protobuf.FieldMask", ok field_mask)
    ∷ ("google.protobuf.Struct", ok (node (plain "object") end absent (free true)))
    ∷ ("google.protobuf.Value", err (unsupported "google.protobuf.Value"))
    ∷ ("google.protobuf.Any", err (unsupported "google.protobuf.Any"))
    ∷ []

-- `none` for any other message
unfoldable pub well_known : String → Option (Result SchemaError Schema)
well_known name = lookup name well_known_table

-- s.Properties[name] = schema
drop_prop : String → Props → Props
drop_prop name end = end
drop_prop name (prop n s ps) =
    let rest = drop_prop name ps in if n == name then rest else prop n s rest

unfoldable pub put_prop : String → Schema → Props → Props
unfolding drop_prop
put_prop name s ps = prop name s (drop_prop name ps)

-- The oneofMembers of a message.
unfoldable pub real_members : List Oneof → List String
real_members [] = []
real_members (o ∷ os) =
    let rest = real_members os in if o.synthetic then rest else o.members ++ rest

describe : Option AiField → Schema → Schema
describe none s = s
describe (some a) (node f ps it ad) =
    node (if a.description == "" then f else record f { description = a.description }) ps it ad

is_marked : Option AiField → Bool
is_marked none = false
is_marked (some a) = a.required

-- The schema of a message under construction, with one more field.
unfoldable pub add_field : Field → Schema → Facts × Props → Facts × Props
unfolding describe is_marked
add_field f s (facts, ps) = (
  record facts {
    required = if is_marked f.ai_field then facts.required ++ f.json_name ∷ [] else facts.required;
    non_nullable =
        if validate_requires f then f.json_name ∷ facts.non_nullable else facts.non_nullable;
  },
  put_prop f.json_name (describe f.ai_field s) ps,
)

as_map : Result SchemaError Schema → Result SchemaError Schema
as_map (ok s) = ok (node (plain "object") end absent (values s))
as_map (err e) = err e

as_list : Result SchemaError Schema → Result SchemaError Schema
as_list (ok s) = ok (node (plain "array") end (items s) closed)
as_list (err e) = err e

-- The functions of a level, over the schema of a message that is one level deeper.
module _ (deeper : String → Result SchemaError Schema) where
  unfoldable pub known_or : Option (Result SchemaError Schema) → String → Result SchemaError Schema
  known_or (some r) name = r
  known_or none name = deeper name

  -- schemaForSingular
  unfoldable pub schema_for_singular : Kind → Result SchemaError Schema
  unfolding known_or
  schema_for_singular bool = ok (of_kind "boolean")
  schema_for_singular int32 = ok (of_kind "integer")
  schema_for_singular int64 = ok (of_kind "string")
  schema_for_singular float = ok (of_kind "number")
  schema_for_singular text = ok (of_kind "string")
  schema_for_singular (enumeration vs) =
      ok (node (record (plain "string") { enum = vs }) end absent closed)
  schema_for_singular (message name) = known_or (well_known name) name
  schema_for_singular other = ok (of_kind "string")

  -- schemaForField
  unfoldable pub schema_for_field : Shape → Result SchemaError Schema
  unfolding as_map as_list
  schema_for_field (map_of k) = as_map (schema_for_singular k)
  schema_for_field (repeated k) = as_list (schema_for_singular k)
  schema_for_field (singular k) = schema_for_singular k

  in_field_of : String → Result SchemaError Schema → Result SchemaError Schema
  in_field_of name (ok s) = ok s
  in_field_of name (err e) = err (in_field name e)

  -- The loop over the fields.
  unfoldable pub add_fields : List Field → Facts × Props → Result SchemaError (Facts × Props)
  unfolding in_field_of
  add_fields [] acc = ok acc
  add_fields (f ∷ fs) acc =
      in_field_of f.full_name (schema_for_field f.shape) >>= λ s. add_fields fs (add_field f s acc)

finish : List Oneof → Result SchemaError (Facts × Props) → Result SchemaError Schema
finish os (ok (facts, ps)) =
    ok (node (record facts { oneof_members = real_members os }) ps absent closed)
finish os (err e) = err e

module _ (messages : String → Message) where
  -- schemaForMessage, with the depth that is left.
  unfoldable pub schema_for_message : ℕ → String → Result SchemaError Schema
  unfolding finish
  schema_for_message zero name = err (too_deep name)
  schema_for_message (suc left) name =
      finish (messages name).oneofs
        (add_fields (schema_for_message left) (messages name).fields (plain "object", end))
