-- ===== src/Mcp/Bridge.antt =====
-- mcp/bridge.go: the MCP endpoint. JSON and media types are read by the standard library, so what it
-- answers is a record of functions, `Wire`; a raw JSON message is its bytes.
pub mod Request
pub mod Call
pub mod Post
pub mod Build
pub mod Catalogue
pub mod Headers
mod Examples
use gortexa.Common.{
  ℕ, String, string_eq, nat_eq, Bool, true, false, Option, none, some, List, [], ◌∷◌, ◌==◌, ◌||◌,
  if◌then◌else◌,
}
use gortexa.Common.Dict.{Dict, lookup}
use gortexa.Common.Int.{ℤ, negsuc}
use gortexa.Common.Members.{contains}
use gortexa.Common.Text.{codes}
use gortexa.Mcp.Downgrade.{McpTool}

-- protocolVersion and headerlessProtocolVersion
abbrev pub protocol_version : String
protocol_version = "2025-11-25"

abbrev pub headerless_protocol_version : String
headerless_protocol_version = "2025-03-26"

abbrev pub max_batch_elements : ℕ
max_batch_elements = 100

abbrev pub max_authz_bytes : ℕ
max_authz_bytes = 8192

-- supportedProtocolVersions, each with whether it permits batches
abbrev pub supported_protocol_versions : Dict String Bool
supported_protocol_versions =
    ("2025-11-25", false) ∷ ("2025-06-18", false) ∷ ("2025-03-26", true) ∷ ("2024-11-05", true) ∷ []

-- json.RawMessage
abbrev pub Raw : Type 0
Raw = List ℕ

abbrev pub null : Raw
null = codes "null"

-- encoding/json, mime, net and strconv, as far as the bridge asks them. A text that does not parse is
-- `none`.
pub record Wire : Type 0 where
  -- bytes.TrimSpace
  pub trim_space : Raw → Raw
  -- json.Unmarshal into a map of raw messages, a list of them, and a string
  pub object : Raw → Option (Dict String Raw)
  pub array : Raw → Option (List Raw)
  pub text : Raw → Option String
  -- a json.Decoder with UseNumber: the text of a number that nothing follows
  pub number : Raw → Option Raw
  -- json.Valid
  pub valid : Raw → Bool
  -- json.Unmarshal into the parameters of initialize, and of tools/call: a name and its arguments
  pub version_param : Raw → Option String
  pub call_params : Raw → Option (String × Raw)
  -- mime.ParseMediaType, its type in lower case: the type and its parameters
  pub media_type : String → Option (String × Dict String String)
  -- strings.HasSuffix(s, "+json")
  pub has_json_suffix : String → Bool
  -- strconv.ParseFloat gives a number above 0
  pub positive : String → Bool
  -- strings.SplitSeq(s, ",") with each part trimmed, and whether a text is blank
  pub split_commas : String → List String
  pub blank : String → Bool
  -- net.SplitHostPort: the host
  pub host : String → Option String

pub record RpcError : Type 0 where
  pub code : ℤ
  pub message : String

abbrev minus : ℕ → ℤ
minus ℕ.zero = ℤ.pos 0
minus (ℕ.suc n) = negsuc n

abbrev pub rpc_error : ℕ → String → RpcError
rpc_error magnitude message = record { code = minus magnitude; message = message }

-- rpcRequest
pub record RpcRequest : Type 0 where
  pub id : Raw
  pub method : String
  pub params : Raw

-- The results of the methods: the version of initialize, {} for ping, tools/list, and what a tool
-- returned, or the message, category and retryability of its error.
pub data Payload : Type 0 where
  initialized : String → Payload
  pong : Payload
  tools_list : List McpTool → Payload
  content : Raw → Payload
  tool_error : String → String → Bool → Payload

pub data Outcome : Type 0 where
  result : Payload → Outcome
  error : RpcError → Outcome

-- rpcResponse: an id with a result or an error
pub record RpcResponse : Type 0 where
  pub id : Raw
  pub outcome : Outcome

abbrev pub has : Option Bool → Bool
has none = false
has (some b) = true

-- isSupportedVersion
unfoldable pub is_supported_version : String → Bool
is_supported_version v = has (lookup v supported_protocol_versions)

-- The Boolean that a missing key has.
abbrev pub or_false : Option Bool → Bool
or_false none = false
or_false (some b) = b

unfoldable pub version_or_default : Option String → String
unfolding is_supported_version
version_or_default none = protocol_version
version_or_default (some v) = if is_supported_version v then v else protocol_version

-- negotiateVersion
unfoldable pub negotiate_version : Wire → Raw → String
unfolding version_or_default
negotiate_version w [] = protocol_version
negotiate_version w (b ∷ bs) = version_or_default (w.version_param (b ∷ bs))

-- requestVersion, on the values of the header
unfoldable pub request_version : List String → String × Bool
unfolding is_supported_version
request_version [] = (headerless_protocol_version, true)
request_version (v ∷ []) = (v, is_supported_version v)
request_version (v ∷ u ∷ vs) = ("", false)

-- SetAllowedOrigins
unfoldable pub set_allowed_origins : List String → List String
set_allowed_origins [] = []
set_allowed_origins (o ∷ os) =
    let rest = set_allowed_origins os in if o == "*" then rest else o ∷ rest

-- originAllowed
unfoldable pub origin_allowed : List String → String → Bool
origin_allowed allowed origin = if origin == "" then true else contains allowed origin
