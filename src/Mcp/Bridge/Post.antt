-- ===== src/Mcp/Bridge/Post.antt =====
-- mcp/bridge.go: the HTTP handler, single requests, batches and the media types.
mod Media
pub mod Batch
pub mod Caps
pub mod Guard
pub use Media.*
use gortexa.Common.{
  ℕ, suc, String, string_eq, nat_eq, Bool, true, false, Option, none, some, List, [], ◌∷◌, ◌==◌,
  ◌||◌, ◌&&◌, not, if◌then◌else◌, leb, ltb, length, take, ◌+◌,
}
use gortexa.Common.Dict.{Dict, lookup, insert}
use gortexa.Common.Text.{concat}
use gortexa.Apperr.Registry.{Registry}
use gortexa.Apperr.Resolve.{Grpc}
use gortexa.HttpLimits.{max_request_bytes}
use gortexa.Mcp.Bridge.{
  Raw, null, Wire, RpcError, rpc_error, RpcRequest, RpcResponse, error, request_version,
  supported_protocol_versions, or_false, origin_allowed, max_batch_elements,
}
use gortexa.Mcp.Bridge.Call.{HttpRequest, Bridge, Backend, dispatch}
use gortexa.Mcp.Bridge.Request.{
  Validated, good, bad, invalid_request, id_or_null, validate_rpc_request,
}

pub data Body : Type 0 where
  single : RpcResponse → Body
  batch : List RpcResponse → Body

-- http.Error with its text, a status without a body, and a JSON-RPC body in a media type.
pub data Reply : Type 0 where
  plain : ℕ → String → Reply
  bare : ℕ → Reply
  answered : String → ℕ → Body → Reply

unfoldable pub written : Option String → ℕ → Body → Reply
written none status body = plain 406 "not acceptable"
written (some media_type) status body = answered media_type status body

-- writeRPCValue
unfoldable pub write_rpc_value : Wire → HttpRequest → ℕ → Body → Reply
unfolding written
write_rpc_value w r status body = written (negotiate_response_type w r.accept) status body

-- A response that carries an error.
abbrev pub error_response : Raw → RpcError → RpcResponse
error_response id e = record { id = id; outcome = error e }

-- writeRPCStatus of an error
unfoldable pub write_error : Wire → HttpRequest → ℕ → Raw → RpcError → Reply
write_error w r status id e = write_rpc_value w r status (single (error_response id e))

abbrev pub parse_error : RpcError
parse_error = rpc_error 32700 "parse error"

abbrev pub unsupported_version : RpcError
unsupported_version = rpc_error 32600 "unsupported MCP-Protocol-Version"

-- maxPerBatch
abbrev pub max_per_batch : Dict String ℕ
max_per_batch = ("tools/list", 1) ∷ ("initialize", 1) ∷ []

abbrev pub or_zero : Option ℕ → ℕ
or_zero none = 0
or_zero (some n) = n

-- What an entry of a batch leaves: its response, if it has one, the counts of the capped methods, and
-- what calls change.
pub record Step (W : Type 0) : Type 0 where
  pub response : Option RpcResponse
  pub served : Dict String ℕ
  pub world : W

unfoldable pub add_response : Option RpcResponse → List RpcResponse → List RpcResponse
add_response none rs = rs
add_response (some resp) rs = resp ∷ rs

module _ (w : Wire) where
  -- The fields of an entry that is an object.
  unfoldable pub entry_fields : Raw → Option (Dict String Raw)
  entry_fields [] = none
  entry_fields (c ∷ cs) = if c == 123 then w.object (c ∷ cs) else none

  unfoldable pub batch_reply : HttpRequest → List RpcResponse → Reply
  batch_reply r [] = bare 202
  batch_reply r (resp ∷ rs) = write_rpc_value w r 200 (batch (resp ∷ rs))

module _ {M W : Type 0} (w : Wire) (backend : Backend M W) (grpc : Grpc) (default : Registry)
    (b : Bridge) where
  unfoldable pub dispatched : HttpRequest → RpcRequest → Dict String ℕ → W → Step W
  dispatched r q served world =
      let done = dispatch w backend grpc default b r q world in
      record { response = some done.0; served = served; world = done.1 }

  unfoldable pub capped : HttpRequest → RpcRequest → Option ℕ → Dict String ℕ → W → Step W
  unfolding dispatched
  capped r q none served world = dispatched r q served world
  capped r q (some limit) served world =
      if leb limit (or_zero (lookup q.method served))
      then record {
        response = some (
            error_response q.id
              (rpc_error 32600 (concat ("batch may carry at most one " ∷ q.method ∷ []))));
        served = served;
        world = world;
      }
      else dispatched r q (insert q.method (suc (or_zero (lookup q.method served))) served) world

  -- A notification has no response.
  unfoldable pub request_step : HttpRequest → RpcRequest → Raw → Dict String ℕ → W → Step W
  unfolding capped
  request_step r q [] served world = record { response = none; served = served; world = world }
  request_step r q (c ∷ cs) served world = capped r q (lookup q.method max_per_batch) served world

  unfoldable pub validated_step : HttpRequest → Validated → Dict String ℕ → W → Step W
  unfolding request_step
  validated_step r (bad id e) served world = record {
    response = some (error_response id e);
    served = served;
    world = world;
  }
  validated_step r (good q) served world = request_step r q q.id served world

  unfoldable pub fields_step : HttpRequest → Option (Dict String Raw) → Dict String ℕ → W → Step W
  unfolding validated_step
  fields_step r none served world = record {
    response = some (error_response null invalid_request);
    served = served;
    world = world;
  }
  fields_step r (some fields) served world =
      validated_step r (validate_rpc_request w fields) served world

  -- The loop over the entries.
  unfoldable pub run_batch : HttpRequest → List Raw → Dict String ℕ → W → List RpcResponse × W
  unfolding fields_step entry_fields add_response
  run_batch r [] served world = ([], world)
  run_batch r (raw ∷ raws) served world =
      let step = fields_step r (entry_fields w (w.trim_space raw)) served world in
      let rest = run_batch r raws step.served step.world in
      (add_response step.response rest.0, rest.1)

  unfoldable pub batch_entries : HttpRequest → Option (List Raw) → W → Reply × W
  unfolding run_batch batch_reply write_error
  batch_entries r none world = (write_error w r 200 null parse_error, world)
  batch_entries r (some []) world = (write_error w r 200 null invalid_request, world)
  batch_entries r (some (raw ∷ raws)) world =
      if ltb max_batch_elements (length (raw ∷ raws))
      then (write_error w r 413 null (rpc_error 32000 "batch too large"), world)
      else let done = run_batch r (raw ∷ raws) [] world in (batch_reply w r done.0, done.1)

  -- handleBatchPost
  unfoldable pub handle_batch_post : HttpRequest → Raw → W → Reply × W
  unfolding batch_entries
  handle_batch_post r body world = batch_entries r (w.array body) world

  unfoldable pub single_request : HttpRequest → RpcRequest → Raw → W → Reply × W
  single_request r q [] world = (bare 202, world)
  single_request r q (c ∷ cs) world =
      let done = dispatch w backend grpc default b r q world in
      (write_rpc_value w r 200 (single done.0), done.1)

  unfoldable pub single_validated : HttpRequest → Validated → Bool → W → Reply × W
  unfolding single_request write_error
  single_validated r (bad id e) version_ok world = (write_error w r 200 id e, world)
  single_validated r (good q) version_ok world =
      if not version_ok && not (q.method == "initialize")
      then (write_error w r 400 (id_or_null q.id) unsupported_version, world)
      else single_request r q q.id world

  unfoldable pub single_fields : HttpRequest → Option (Dict String Raw) → Bool → W → Reply × W
  unfolding single_validated write_error
  single_fields r none version_ok world = (write_error w r 200 null parse_error, world)
  single_fields r (some fields) version_ok world =
      single_validated r (validate_rpc_request w fields) version_ok world

  -- handleSinglePost
  unfoldable pub handle_single_post : HttpRequest → Raw → Bool → W → Reply × W
  unfolding single_fields
  handle_single_post r body version_ok world = single_fields r (w.object body) version_ok world

  unfoldable pub batch_post : HttpRequest → Raw → String × Bool → W → Reply × W
  unfolding handle_batch_post write_error
  batch_post r body (version, version_ok) world =
      if not version_ok
      then (write_error w r 400 null unsupported_version, world)
      else if not (or_false (lookup version supported_protocol_versions))
      then (
        write_error w r 400 null
            (rpc_error 32600 "JSON-RPC batching is not supported in this protocol version"),
        world,
      )
      else handle_batch_post r body world

  -- The switch on the first byte of the trimmed body.
  unfoldable pub trimmed_post : HttpRequest → Raw → W → Reply × W
  unfolding batch_post handle_single_post write_error
  trimmed_post r [] world = (write_error w r 200 null parse_error, world)
  trimmed_post r (c ∷ cs) world =
      if c == 91
      then batch_post r (c ∷ cs) (request_version r.versions) world
      else if c == 123
      then handle_single_post r (c ∷ cs) (request_version r.versions).1 world
      else (write_error w r 200 null invalid_request, world)

  unfoldable pub read_post : HttpRequest → Option Raw → W → Reply × W
  unfolding trimmed_post write_error
  read_post r none world = (write_error w r 200 null parse_error, world)
  read_post r (some body) world =
      if ltb max_request_bytes (length (take (max_request_bytes + 1) body))
      then (write_error w r 413 null (rpc_error 32000 "request entity too large"), world)
      else trimmed_post r (w.trim_space (take (max_request_bytes + 1) body)) world

  -- handlePost
  unfoldable pub handle_post : HttpRequest → W → Reply × W
  unfolding read_post
  handle_post r world =
      if not (is_supported_json_content_type w r.content_type)
      then (plain 415 "unsupported media type", world)
      else read_post r r.body world

  -- The handler of Handler.
  unfoldable pub serve : HttpRequest → W → Reply × W
  unfolding handle_post
  serve r world =
      if not (origin_allowed b.allowed_origins r.origin)
      then (plain 403 "forbidden origin", world)
      else if r.method == "POST"
      then handle_post r world
      else (plain 405 "method not allowed", world)
