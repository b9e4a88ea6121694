-- ===== src/Mcp/Masker.antt =====
-- mcp/masker.go: the redaction of secret fields in a JSON text. encoding/json's decoder and encoder
-- and Unicode's lower case are parameters; a decoded number keeps its text, as UseNumber asks.
pub mod Redaction
mod Examples
use Prim.Native.Char.{Char, code}
use gortexa.Common.{
  ℕ, String, string_eq, nat_eq, Bool, true, false, Option, none, some, List, [], ◌∷◌, ◌++◌, ◌==◌,
  ◌||◌, map, if◌then◌else◌,
}
use gortexa.Common.Members.{contains}

mutual
  pub data Json : Type 0 where
    null : Json
    bool : Bool → Json
    number : String → Json
    string : String → Json
    array : Items → Json
    object : Fields → Json

  pub data Items : Type 0 where
    nil : Items
    cons : Json → Items → Items

  pub data Fields : Type 0 where
    end : Fields
    field : String → Json → Fields → Fields

abbrev pub redacted : Json
redacted = string "[REDACTED]"

abbrev pub unparseable : String
unparseable = "[UNPARSEABLE JSON REDACTED]"

-- defaultMaskFields
abbrev pub default_mask_fields : List String
default_mask_fields = "password" ∷ "token" ∷ "secret" ∷ "authorization" ∷ "api_key" ∷ []

unfoldable pub drop_underscores : String → String
drop_underscores String.[] = ""
drop_underscores (String.◌∷◌ c s) =
    let rest = drop_underscores s in if code c == b'_' then rest else String.◌∷◌ c rest

module _ (to_lower : String → String) where
  -- normalizeKey
  unfoldable pub normalize_key : String → String
  unfolding drop_underscores
  normalize_key s = drop_underscores (to_lower s)

  -- maskSet, and the configured fields that MaskSecrets adds to it.
  unfoldable pub mask_set : List String → List String
  unfolding normalize_key
  mask_set fields = map normalize_key fields

  -- Whether a key is in the set.
  unfoldable pub is_secret : List String → String → Bool
  unfolding contains normalize_key
  is_secret fields k = contains fields (normalize_key k)

  unfoldable mutual
    unfolding is_secret

    -- mask
    pub mask : List String → Json → Json
    mask fields null = null
    mask fields (bool b) = bool b
    mask fields (number n) = number n
    mask fields (string s) = string s
    mask fields (array xs) = array (mask_items fields xs)
    mask fields (object fs) = object (mask_fields fields fs)

    pub mask_items : List String → Items → Items
    mask_items fields nil = nil
    mask_items fields (cons x xs) = cons (mask fields x) (mask_items fields xs)

    pub mask_fields : List String → Fields → Fields
    mask_fields fields end = end
    mask_fields fields (field k v fs) =
        field k (if is_secret fields k then redacted else mask fields v) (mask_fields fields fs)

  -- A root that is a bare value may be the secret itself.
  unfoldable pub mask_root : List String → Json → Json
  unfolding mask
  mask_root fields (string s) = redacted
  mask_root fields (number n) = redacted
  mask_root fields (bool b) = redacted
  mask_root fields v = mask fields v

  or_unparseable : Option String → String
  or_unparseable (some out) = out
  or_unparseable none = unparseable

  module _ (decode : String → Option Json) (encode : Json → Option String) where
    -- MaskSecrets
    unfoldable pub mask_secrets : String → List String → String
    unfolding mask_root or_unparseable mask_set
    mask_secrets raw extra = if raw == "" then raw else elim (decode raw) [
      | none ↦ unparseable
      | some v ↦ or_unparseable (encode (mask_root (mask_set (default_mask_fields ++ extra)) v))
    ]
