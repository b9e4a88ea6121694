-- ===== src/Mcp/Bridge/Call.antt =====
-- mcp/bridge.go: a request that is dispatched, and a tool that is called over the loopback.
use gortexa.Common.{
  String, string_eq, nat_eq, Bool, Option, none, some, List, [], ◌∷◌, ◌==◌, ◌&&◌, not,
  if◌then◌else◌, leb,
}
use gortexa.Common.Dict.{Dict, lookup, insert}
use gortexa.Common.Result.{Result, ok, err}
use gortexa.Common.Text.{codes, byte_length, concat}
use gortexa.Apperr.Types.{Err, new, cat_internal}
use gortexa.Apperr.Registry.{Registry}
use gortexa.Apperr.Resolve.{Grpc, to_mcp}
use gortexa.HttpLimits.{printable_ascii}
use gortexa.Interceptor.RequestId.{valid_request_id, request_id_metadata_key}
use gortexa.Mcp.Downgrade.{McpTool}
use gortexa.Mcp.Tools.{Tool}
use gortexa.Mcp.Bridge.{
  Raw, Wire, rpc_error, RpcRequest, RpcResponse, Payload, initialized, pong, tools_list, content,
  tool_error, Outcome, result, error, negotiate_version, max_authz_bytes,
}

-- auth.MetadataKey and interceptor.PeerIPMetaKey
abbrev pub authorization_key : String
authorization_key = "authorization"

abbrev pub peer_ip_meta_key : String
peer_ip_meta_key = "x-gortexa-peer-ip"

-- The parts of an HTTP request that the bridge reads. A header that is not set is "", and `versions`
-- are the values of MCP-Protocol-Version; a body that cannot be read is `none`.
pub record HttpRequest : Type 0 where
  pub method : String
  pub origin : String
  pub content_type : String
  pub accept : String
  pub authorization : String
  pub request_id : String
  pub versions : List String
  pub remote_addr : String
  pub body : Option Raw

-- Bridge
pub record Bridge : Type 0 where
  pub registry : Registry
  pub tools : Dict String Tool
  pub order : List String
  pub mcp_tools : List McpTool
  pub allowed_origins : List String

-- protojson and the loopback connection: `M` is a message, `W` what calls change.
pub record Backend (M W : Type 0) : Type 0 where
  -- dynamicpb.NewMessage, and protojson.Unmarshal into it, of a type of the given name
  pub new_message : String → M
  pub parse : String → Raw → Result String M
  pub invoke : Dict String String → String → M → W → Result Err M × W
  -- protojson.Marshal
  pub print : M → Option Raw

unfoldable pub or_own : String → Option String → String
or_own own none = own
or_own own (some host) = host

-- clientIP
unfoldable pub client_ip : Wire → HttpRequest → String
unfolding or_own
client_ip w r = or_own r.remote_addr (w.host r.remote_addr)

unfoldable pub set_if : Bool → String → String → Dict String String → Dict String String
set_if test key value md = let more = insert key value md in if test then more else md

-- Whether the credential is replayed on the loopback.
unfoldable pub forwards : String → Bool
forwards authz =
    not (authz == "") && (leb (byte_length (codes authz)) max_authz_bytes && printable_ascii authz)

-- The metadata that toolsCall sends.
unfoldable pub outgoing_metadata : Wire → HttpRequest → Dict String String
unfolding set_if forwards client_ip
outgoing_metadata w r = set_if (not (client_ip w r == "")) peer_ip_meta_key (client_ip w r) (
    set_if (valid_request_id r.request_id) request_id_metadata_key r.request_id
      (set_if (forwards r.authorization) authorization_key r.authorization []))

abbrev invalid_params : String → Outcome
invalid_params message = error (rpc_error 32602 message)

module _ {M W : Type 0} (w : Wire) (backend : Backend M W) (grpc : Grpc) (default : Registry)
    (b : Bridge) where
  -- toolError
  unfoldable pub call_error : Err → Payload
  call_error e =
      let (category, retryable, message) = to_mcp grpc default b.registry (some e) in
      tool_error message category retryable

  unfoldable pub printed : Option Raw → Payload
  unfolding call_error
  printed none = call_error (new cat_internal "marshal output")
  printed (some js) = content js

  unfoldable pub payload_of : Result Err M → Payload
  unfolding printed call_error
  payload_of (err e) = call_error e
  payload_of (ok out) = printed (backend.print out)

  unfoldable pub called : Result Err M × W → Outcome × W
  unfolding payload_of
  called (out, after) = (result (payload_of out), after)

  unfoldable pub arguments : String → Raw → Result String M
  arguments input [] = ok (backend.new_message input)
  arguments input (c ∷ cs) = backend.parse input (c ∷ cs)

  unfoldable pub invoke_tool : HttpRequest → Tool → Result String M → W → Outcome × W
  unfolding called outgoing_metadata
  invoke_tool r t (err message) world =
      (invalid_params (concat ("invalid arguments: " ∷ message ∷ [])), world)
  invoke_tool r t (ok message) world =
      called (backend.invoke (outgoing_metadata w r) t.full_method message world)

  unfoldable pub call_tool : HttpRequest → String → Option Tool → Raw → W → Outcome × W
  unfolding invoke_tool arguments
  call_tool r name none args world = (invalid_params (concat ("unknown tool: " ∷ name ∷ [])), world)
  call_tool r name (some t) args world = invoke_tool r t (arguments t.input args) world

  unfoldable pub call_with : HttpRequest → Option (String × Raw) → W → Outcome × W
  unfolding call_tool
  call_with r none world = (invalid_params "invalid params", world)
  call_with r (some (name, args)) world = call_tool r name (lookup name b.tools) args world

  -- toolsCall
  unfoldable pub tools_call : HttpRequest → Raw → W → Outcome × W
  unfolding call_with
  tools_call r params world = call_with r (w.call_params params) world

  unfoldable pub respond : HttpRequest → RpcRequest → W → Outcome × W
  unfolding tools_call
  respond r q world =
      if q.method == "initialize"
      then (result (initialized (negotiate_version w q.params)), world)
      else if q.method == "ping"
      then (result pong, world)
      else if q.method == "tools/list"
      then (result (tools_list b.mcp_tools), world)
      else if q.method == "tools/call"
      then tools_call r q.params world
      else (error (rpc_error 32601 (concat ("method not found: " ∷ q.method ∷ []))), world)

  -- dispatch
  unfoldable pub dispatch : HttpRequest → RpcRequest → W → RpcResponse × W
  unfolding respond
  dispatch r q world =
      let answered = respond r q world in (record { id = q.id; outcome = answered.0 }, answered.1)
