-- ===== src/Mcp/Downgrade.antt =====
-- mcp/downgrade.go: a tool in the format of MCP, of OpenAI and of Gemini.
pub mod Strict
use gortexa.Common.{
  String, string_eq, Bool, true, false, Option, none, some, List, [], ◌∷◌, ◌++◌, ◌==◌, ◌&&◌, ◌||◌,
  not, if◌then◌else◌, map,
}
use gortexa.Common.Members.{contains}
use gortexa.Common.Text.{sort_by, concat}
use gortexa.Mcp.Schema.{
  Facts, Schema, node, Props, end, prop, Nested, absent, items, Additional, closed, free, values,
}
use gortexa.Mcp.Tools.{Tool}

-- MCPTool, with its MCPAnnotations.
pub record McpTool : Type 0 where
  pub name : String
  pub description : String
  pub input_schema : Schema
  pub read_only_hint : Bool
  pub destructive_hint : Bool

-- DowngradeMCP
unfoldable pub downgrade_mcp : Tool → McpTool
downgrade_mcp t = record {
  name = t.name;
  description = t.description;
  input_schema = t.input_schema;
  read_only_hint = t.read_only;
  destructive_hint = t.destructive;
}

-- The parts of an OpenAISchema that hold no schema. A type or null is the type with `or_null`; a null
-- among the values of an enum is `none`; `required` is `none` where it is omitted.
pub record OaFacts : Type 0 where
  pub kind : String
  pub or_null : Bool
  pub description : String
  pub required : Option (List String)
  pub enum : List (Option String)

-- OpenAISchema
mutual
  pub data OaSchema : Type 0 where
    oa_node : OaFacts → OaProps → OaNested → OaAdditional → OaSchema

  pub data OaProps : Type 0 where
    oa_end : OaProps
    oa_prop : String → OaSchema → OaProps → OaProps

  pub data OaNested : Type 0 where
    oa_absent : OaNested
    oa_items : OaSchema → OaNested

  pub data OaAdditional : Type 0 where
    oa_omitted : OaAdditional
    oa_free : Bool → OaAdditional
    oa_values : OaSchema → OaAdditional

unfoldable pub is_object : Facts → Bool
is_object f = f.kind == "object"

abbrev pub has_oneofs : List String → Bool
has_oneofs [] = false
has_oneofs (m ∷ ms) = true

-- strictCompatible
unfoldable mutual
  pub strict_compatible : Schema → Bool
  strict_compatible (node f ps it ad) =
      not (has_oneofs f.oneof_members)
      && (strict_additional ad && (strict_nested it && strict_props ps))

  pub strict_additional : Additional → Bool
  strict_additional closed = true
  strict_additional (free b) = false
  strict_additional (values s) = false

  pub strict_nested : Nested → Bool
  strict_nested absent = true
  strict_nested (items s) = strict_compatible s

  pub strict_props : Props → Bool
  strict_props end = true
  strict_props (prop n s ps) = strict_compatible s && strict_props ps

abbrev null_enum : List (Option String) → List (Option String)
null_enum [] = []
null_enum (v ∷ vs) = v ∷ vs ++ none ∷ []

-- nullable
unfoldable pub nullable : OaSchema → OaSchema
nullable (oa_node f ps it ad) =
    oa_node (record f { or_null = true; enum = null_enum f.enum }) ps it ad

-- The names that the model must give: all but the members of a oneof.
unfoldable pub required_names : List String → Props → List String
required_names oneofs end = []
required_names oneofs (prop n s ps) =
    let rest = required_names oneofs ps in if contains oneofs n then rest else n ∷ rest

-- Whether null stands for a property that is left unset.
unfoldable pub may_be_null : Facts → String → Bool
may_be_null f name =
    not (contains f.oneof_members name)
    && (not (contains f.required name) && not (contains f.non_nullable name))

-- toOpenAISchema. A schema that is no object loses its properties.
unfoldable mutual
  pub to_openai : Schema → OaSchema
  to_openai (node f ps it ad) =
      let own = to_openai_props f ps in
      let extra = to_openai_additional ad in
      oa_node
        (record {
          kind = f.kind;
          or_null = false;
          description = f.description;
          required =
              if is_object f
              then some (sort_by (λ n. n) (required_names f.oneof_members ps))
              else none;
          enum = map some f.enum;
        })
        (if is_object f then own else oa_end) (to_openai_nested it)
        (if is_object f then extra else oa_omitted)

  pub to_openai_props : Facts → Props → OaProps
  to_openai_props f end = oa_end
  to_openai_props f (prop n s ps) =
      let own = to_openai s in
      oa_prop n (if may_be_null f n then nullable own else own) (to_openai_props f ps)

  pub to_openai_nested : Nested → OaNested
  to_openai_nested absent = oa_absent
  to_openai_nested (items s) = oa_items (to_openai s)

  pub to_openai_additional : Additional → OaAdditional
  to_openai_additional closed = oa_free false
  to_openai_additional (free b) = oa_free b
  to_openai_additional (values s) = oa_values (to_openai s)

-- OpenAIFunction and OpenAIFuncBody; the type is always "function".
pub record OaFunction : Type 0 where
  pub name : String
  pub description : String
  pub strict : Bool
  pub parameters : OaSchema

-- DowngradeOpenAI
unfoldable pub downgrade_openai : Tool → OaFunction
unfolding strict_compatible to_openai
downgrade_openai t = record {
  name = t.name;
  description = t.description;
  strict = strict_compatible t.input_schema;
  parameters = to_openai t.input_schema;
}

-- GeminiSchema
mutual
  pub data GeminiSchema : Type 0 where
    g_node : String → String → List String → List String → GeminiProps → GeminiNested → GeminiSchema

  pub data GeminiProps : Type 0 where
    g_end : GeminiProps
    g_prop : String → GeminiSchema → GeminiProps → GeminiProps

  pub data GeminiNested : Type 0 where
    g_absent : GeminiNested
    g_items : GeminiSchema → GeminiNested

-- strings.Join
unfoldable pub join : String → List String → String
join separator [] = ""
join separator (s ∷ []) = s
join separator (s ∷ t ∷ ss) = concat (s ∷ separator ∷ join separator (t ∷ ss) ∷ [])

one_of : List String → String
unfolding join
one_of [] = ""
one_of (v ∷ vs) = concat (" (one of " ∷ join ", " (v ∷ vs) ∷ ")" ∷ [])

-- openObjectNote
unfoldable pub open_object_note : Additional → String
unfolding one_of
open_object_note closed = ""
open_object_note (free b) = if b then "Free-form JSON object." else ""
open_object_note (values (node f ps it ad)) =
    concat
      ("Object with arbitrary string keys; each value is a " ∷ f.kind ∷ one_of f.enum ∷ "." ∷ [])

-- Over strings.TrimSpace.
module _ (trim_space : String → String) where
  unfoldable pub with_note : String → String → String
  with_note description note =
      if note == "" then description else trim_space (concat (description ∷ " " ∷ note ∷ []))

  -- toGeminiSchema
  unfoldable mutual
    pub to_gemini : Schema → GeminiSchema
    to_gemini (node f ps it ad) =
        g_node f.kind (with_note f.description (open_object_note ad)) f.required f.enum
          (to_gemini_props ps) (to_gemini_nested it)

    pub to_gemini_props : Props → GeminiProps
    to_gemini_props end = g_end
    to_gemini_props (prop n s ps) = g_prop n (to_gemini s) (to_gemini_props ps)

    pub to_gemini_nested : Nested → GeminiNested
    to_gemini_nested absent = g_absent
    to_gemini_nested (items s) = g_items (to_gemini s)

-- GeminiFunctionDeclaration
pub record GeminiFunction : Type 0 where
  pub name : String
  pub description : String
  pub parameters : GeminiSchema

-- DowngradeGemini
unfoldable pub downgrade_gemini : (String → String) → Tool → GeminiFunction
unfolding to_gemini
downgrade_gemini trim_space t = record {
  name = t.name;
  description = t.description;
  parameters = to_gemini trim_space t.input_schema;
}
