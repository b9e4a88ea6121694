-- ===== src/Mcp/Bridge/Build.antt =====
-- mcp/bridge.go: the bridge that NewBridge makes of the services.
use gortexa.Common.{
  String, string_eq, Bool, true, false, Option, none, some, List, [], ◌∷◌, ◌++◌, if◌then◌else◌,
}
use gortexa.Common.Dict.{Dict, lookup, insert}
use gortexa.Common.Result.{Result, ok, err, ◌>>=◌}
use gortexa.Common.Text.{sort_by}
use gortexa.Apperr.Registry.{Registry}
use gortexa.Mcp.Schema.{Message}
use gortexa.Mcp.Downgrade.{McpTool, downgrade_mcp}
use gortexa.Mcp.Tools.{Tool, ToolError, Method, build_ir}
use gortexa.Mcp.Bridge.Call.{Bridge}

-- The errors of NewBridge: those of BuildIR and of a name that two services give.
pub data BridgeError : Type 0 where
  tool : ToolError → BridgeError
  duplicate : String → BridgeError

-- A service: its full name and its methods.
pub record Service : Type 0 where
  pub name : String
  pub methods : List Method

-- The tools by their name, and the names.
abbrev pub Collected : Type 0
Collected = Dict String Tool × List String

abbrev pub holds : Option Tool → Bool
holds none = false
holds (some t) = true

-- The loop over the tools of a service.
unfoldable pub add_tools : List Tool → Collected → Result BridgeError Collected
add_tools [] acc = ok acc
add_tools (t ∷ ts) (tools, order) =
    if holds (lookup t.name tools)
    then err (duplicate t.name)
    else add_tools ts (insert t.name t tools, order ++ t.name ∷ [])

unfoldable pub or_tool_error : Result ToolError (List Tool) → Result BridgeError (List Tool)
or_tool_error (ok ts) = ok ts
or_tool_error (err e) = err (tool e)

abbrev pub add_tool : Option Tool → List McpTool → List McpTool
add_tool none rest = rest
add_tool (some t) rest = downgrade_mcp t ∷ rest

-- The loop over the order. A name without a tool, which the order never has, is left out.
unfoldable pub listed : Dict String Tool → List String → List McpTool
unfolding downgrade_mcp
listed tools [] = []
listed tools (name ∷ names) = add_tool (lookup name tools) (listed tools names)

unfoldable pub bridge_of : Registry → Collected → Bridge
unfolding listed
bridge_of registry (tools, order) = record {
  registry = registry;
  tools = tools;
  order = sort_by (λ n. n) order;
  mcp_tools = listed tools (sort_by (λ n. n) order);
  allowed_origins = [];
}

module _ (messages : String → Message) where
  -- The loop over the services.
  unfoldable pub collect_tools : List Service → Collected → Result BridgeError Collected
  unfolding or_tool_error add_tools
  collect_tools [] acc = ok acc
  collect_tools (s ∷ ss) acc = or_tool_error (build_ir messages s.name s.methods) >>= λ ts.
      add_tools ts acc >>= λ more. collect_tools ss more

  -- NewBridge
  unfoldable pub new_bridge : List Service → Registry → Result BridgeError Bridge
  unfolding collect_tools bridge_of
  new_bridge services registry =
      collect_tools services ([], []) >>= λ acc. ok (bridge_of registry acc)
