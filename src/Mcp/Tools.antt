-- ===== src/Mcp/Tools.antt =====
-- mcp/ir.go: the tools of a service, made of its exposed methods.
pub mod Valid
use gortexa.Common.{
  ℕ, String, string_eq, Bool, true, false, Option, none, some, List, [], ◌∷◌, ◌++◌, ◌==◌, ◌&&◌,
  ◌||◌, not, if◌then◌else◌, ltb, leb, nat_eq,
}
use gortexa.Common.Text.{codes, byte_length, sort_by, concat}
use gortexa.Common.Result.{Result, ok, err, ◌>>=◌}
use gortexa.Mcp.Schema.{Schema, SchemaError, Message, schema_for_message, max_schema_depth}

abbrev pub max_tool_name_len : ℕ
max_tool_name_len = 64

-- The characters of toolNameRE: [A-Za-z_] first, then [A-Za-z0-9_-].
abbrev is_between : ℕ → ℕ → ℕ → Bool
is_between low c high = leb low c && leb c high

unfoldable pub starts_name : ℕ → Bool
starts_name c = is_between 65 c 90 || is_between 97 c 122 || c == 95

unfoldable pub continues_name : ℕ → Bool
unfolding starts_name
continues_name c = starts_name c || is_between 48 c 57 || c == 45

-- At most `left` more characters, up to the end of the text.
unfoldable pub rest_matches : ℕ → List ℕ → Bool
unfolding continues_name
rest_matches left [] = true
rest_matches ℕ.zero (c ∷ cs) = false
rest_matches (ℕ.suc left) (c ∷ cs) = continues_name c && rest_matches left cs

-- toolNameRE.MatchString: ^[A-Za-z_][A-Za-z0-9_-]{0,63}$
unfoldable pub tool_name_matches : List ℕ → Bool
unfolding starts_name rest_matches
tool_name_matches [] = false
tool_name_matches (c ∷ cs) = starts_name c && rest_matches 63 cs

pub data ToolError : Type 0 where
  name_too_long bad_name : String → ToolError
  read_only_and_destructive streaming : String → ToolError
  input_schema : String → SchemaError → ToolError

-- ValidateTool
unfoldable pub validate_tool : String → Bool → Bool → Option ToolError
unfolding tool_name_matches
validate_tool name read_only destructive =
    if ltb max_tool_name_len (byte_length (codes name))
    then some (name_too_long name)
    else if not (tool_name_matches (codes name))
    then some (bad_name name)
    else if read_only && destructive
    then some (read_only_and_destructive name)
    else none

-- The annotation ai_tool of a method.
pub record AiTool : Type 0 where
  pub expose : Bool
  pub name : String
  pub description : String
  pub read_only : Bool
  pub destructive : Bool

pub record Method : Type 0 where
  pub name : String
  pub input : String
  pub output : String
  pub streaming_client : Bool
  pub streaming_server : Bool
  pub ai_tool : Option AiTool

-- ToolIR
pub record Tool : Type 0 where
  pub name : String
  pub description : String
  pub full_method : String
  pub input : String
  pub output : String
  pub input_schema : Schema
  pub read_only : Bool
  pub destructive : Bool

-- The options of a method that is a tool.
unfoldable pub exposed : Option AiTool → Option AiTool
exposed none = none
exposed (some o) = if o.expose then some o else none

unfoldable pub tool_name : Method → AiTool → String
tool_name m o = if o.name == "" then m.name else o.name

unfoldable pub make_tool :
    String → Method → AiTool → Result SchemaError Schema → Result ToolError Tool
unfolding tool_name
make_tool service m o (err e) = err (input_schema (tool_name m o) e)
make_tool service m o (ok s) = ok (record {
  name = tool_name m o;
  description = o.description;
  full_method = concat ("/" ∷ service ∷ "/" ∷ m.name ∷ []);
  input = m.input;
  output = m.output;
  input_schema = s;
  read_only = o.read_only;
  destructive = o.destructive;
})

unfoldable pub or_error : Option ToolError → Result ToolError Tool → Result ToolError Tool
or_error (some e) r = err e
or_error none r = r

module _ (messages : String → Message) (service : String) where
  -- The body of the loop over the methods, for one that is exposed.
  unfoldable pub tool_of : Method → AiTool → Result ToolError Tool
  unfolding tool_name make_tool validate_tool or_error
  tool_of m o =
      if m.streaming_client || m.streaming_server
      then err (streaming (tool_name m o))
      else or_error (validate_tool (tool_name m o) o.read_only o.destructive)
          (make_tool service m o (schema_for_message messages max_schema_depth m.input))

  unfoldable pub next_tool : Method → Option AiTool → List Tool → Result ToolError (List Tool)
  unfolding tool_of
  next_tool m none tools = ok tools
  next_tool m (some o) tools = tool_of m o >>= λ t. ok (tools ++ t ∷ [])

  unfoldable pub tools_of : List Method → List Tool → Result ToolError (List Tool)
  unfolding next_tool exposed
  tools_of [] tools = ok tools
  tools_of (m ∷ ms) tools = next_tool m (exposed m.ai_tool) tools >>= λ more. tools_of ms more

  -- BuildIR
  unfoldable pub build_ir : List Method → Result ToolError (List Tool)
  unfolding tools_of
  build_ir methods = tools_of methods [] >>= λ tools. ok (sort_by (λ t. t.name) tools)
