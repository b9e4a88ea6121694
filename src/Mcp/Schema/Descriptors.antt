-- ===== src/Mcp/Schema/Descriptors.antt =====
-- mcp/ir.go: the descriptors of protobuf as data, with the annotations that the schemas read.
use gortexa.Common.{
  ℕ, String, Bool, true, false, Option, none, some, List, ◌||◌, if◌then◌else◌, leb,
}

-- The annotation ai_field of a field.
pub record AiField : Type 0 where
  pub description : String
  pub required : Bool

pub data Ignore : Type 0 where
  unspecified if_zero_value always : Ignore

-- The rules of buf.validate on a field; a missing string or bytes rule has the length 0.
pub record Rules : Type 0 where
  pub ignore : Ignore
  pub required : Bool
  pub string_min_len : ℕ
  pub bytes_min_len : ℕ

-- protoreflect.Kind, the 32-bit and the 64-bit integers and the two floats as one each.
pub data Kind : Type 0 where
  bool int32 int64 float text : Kind
  enumeration : List String → Kind
  message : String → Kind
  other : Kind

-- Whether a field is a map, with the kind of its values, or a list, or neither.
pub data Shape : Type 0 where
  singular : Kind → Shape
  repeated : Kind → Shape
  map_of : Kind → Shape

pub record Field : Type 0 where
  pub full_name : String
  pub json_name : String
  pub shape : Shape
  pub has_presence : Bool
  pub ai_field : Option AiField
  pub rules : Option Rules

-- The members of a oneof, by their JSON names.
pub record Oneof : Type 0 where
  pub synthetic : Bool
  pub members : List String

pub record Message : Type 0 where
  pub fields : List Field
  pub oneofs : List Oneof

is_ignored : Ignore → Bool
is_ignored unspecified = false
is_ignored if_zero_value = true
is_ignored always = true

is_collection : Shape → Bool
is_collection (singular k) = false
is_collection (repeated k) = true
is_collection (map_of k) = true

rules_require : Field → Option Rules → Bool
unfolding is_ignored is_collection
rules_require f none = false
rules_require f (some r) =
    if is_ignored r.ignore
    then false
    else if r.required
    then true
    else if f.has_presence || is_collection f.shape
    then false
    else leb 1 r.string_min_len || leb 1 r.bytes_min_len

-- validateRequires
unfoldable pub validate_requires : Field → Bool
unfolding rules_require
validate_requires f = rules_require f f.rules
