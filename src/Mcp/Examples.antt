-- ===== src/Mcp/Examples.antt =====
-- The schemas, the tools and the bridge at concrete messages.
use gortexa.Common.{
  ℕ, String, string_eq, nat_eq, true, false, none, some, [], ◌∷◌, ◌==◌, ◌≡◌, refl, if◌then◌else◌,
  get_elem?,
}
use gortexa.Common.Dict.{lookup}
use gortexa.Mcp.Schema.{
  Message, Field, singular, repeated, text, message, unspecified, schema_for_message,
  max_schema_depth, well_known, Schema, node, plain, of_kind, prop, end, absent, closed,
}
use gortexa.Mcp.Tools.{Method, build_ir}
use gortexa.Mcp.Tools.Valid.{BuildsTools, build_ir-BuildsTools}
use gortexa.Mcp.Downgrade.{strict_compatible, to_openai}
use gortexa.Mcp.Downgrade.Strict.{IsStrict, to_openai-IsStrict}
use gortexa.Mcp.Schema.Leaves.{Returns}
use gortexa.Mcp.Schema.Cycles.{Fails, kind_of, schema_for_message-cyclic}
use gortexa.Mcp.Schema.Portable.{IsPortable, schema_for_message-IsPortable}

abbrev name_field : Field
name_field = record {
  full_name = "shop.Item.name";
  json_name = "name";
  shape = singular text;
  has_presence = false;
  ai_field = some (record { description = "The name."; required = true });
  rules =
      some
        (record { ignore = unspecified; required = false; string_min_len = 1; bytes_min_len = 0 });
}

abbrev parts_field : Field
parts_field = record name_field {
  full_name = "shop.Tree.parts";
  json_name = "parts";
  shape = repeated (message "shop.Tree");
  ai_field = none;
  rules = none;
}

abbrev item : Message
item = record { fields = name_field ∷ []; oneofs = [] }

-- A message that holds a list of itself.
abbrev tree : Message
tree = record { fields = name_field ∷ parts_field ∷ []; oneofs = [] }

abbrev messages : String → Message
messages name = if name == "shop.Tree" then tree else item

schema_for_message-IsPortable_example :
    Returns IsPortable (schema_for_message messages max_schema_depth "shop.Item")
schema_for_message-IsPortable_example =
    schema_for_message-IsPortable messages max_schema_depth "shop.Item"

abbrev IsTree : String → Type 0
IsTree name = name ≡ "shop.Tree"

self_nesting :
    (name : String)
    → IsTree name
    → (i : ℕ) × (f : Field) × (inner : String) × (get_elem? (messages name).fields i ≡ some f)
      × (kind_of f.shape ≡ message inner)
      × (well_known inner ≡ none)
      × IsTree inner
unfolding well_known lookup
self_nesting name h = (1, parts_field, "shop.Tree", rw h refl, refl, refl, refl)

schema_for_message-cyclic_example : Fails (schema_for_message messages max_schema_depth "shop.Tree")
schema_for_message-cyclic_example =
    schema_for_message-cyclic messages IsTree self_nesting max_schema_depth "shop.Tree" refl

abbrev make : Method
make = record {
  name = "Make";
  input = "shop.Item";
  output = "shop.Item";
  streaming_client = false;
  streaming_server = false;
  ai_tool = some (record {
    expose = true;
    name = "make_item";
    description = "Makes.";
    read_only = false;
    destructive = true;
  });
}

build_ir-BuildsTools_example :
    BuildsTools
      (make ∷ record make { ai_tool = none } ∷ [])
      (build_ir messages "shop.Items" (make ∷ record make { ai_tool = none } ∷ []))
build_ir-BuildsTools_example =
    build_ir-BuildsTools messages "shop.Items" (make ∷ record make { ai_tool = none } ∷ [])

-- An object of two properties, of which one is required.
abbrev shelf : Schema
shelf =
    node (record (plain "object") { required = "b" ∷ [] })
      (prop "b" (of_kind "string") (prop "a" (of_kind "integer") end)) absent closed

shelf_strict : strict_compatible shelf ≡ true
unfolding strict_compatible
shelf_strict = refl

to_openai-IsStrict_example : IsStrict (to_openai shelf)
to_openai-IsStrict_example = to_openai-IsStrict shelf shelf_strict
