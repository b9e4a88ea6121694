-- ===== src/Mcp/Bridge/Examples.antt =====
-- The bridge at a concrete request. The readers of JSON know the few texts of the example.
use gortexa.Common.{
  ℕ, suc, String, string_eq, nat_eq, true, false, Option, none, some, List, [], ◌∷◌, ◌==◌, ◌≤◌, ◌≡◌,
  ◌⊎◌, refl, map, count_p, if◌then◌else◌,
}
use gortexa.Common.Dict.{Dict, lookup}
use gortexa.Common.Result.{ok}
use gortexa.Common.Text.{codes}
use gortexa.Apperr.Default.{default_registry}
use gortexa.Apperr.Resolve.{Grpc}
use gortexa.HttpLimits.{printable_ascii, all_printable}
use gortexa.Mcp.Schema.{Message}
use gortexa.Mcp.Tools.{Method}
use gortexa.Mcp.Bridge.{Raw, Wire, origin_allowed, request_version}
use gortexa.Mcp.Bridge.Call.{HttpRequest, Bridge, Backend, client_ip, or_own, outgoing_metadata}
use gortexa.Mcp.Bridge.Build.{Service, new_bridge}
use gortexa.Mcp.Bridge.Catalogue.{IsCatalogue, new_bridge-IsCatalogue}
use gortexa.Mcp.Bridge.Headers.{AllPrintable, outgoing_metadata-AllPrintable}
use gortexa.Mcp.Bridge.Post.{run_batch, serve, is_supported_json_content_type}
use gortexa.Mcp.Bridge.Post.Batch.{answered_ids, map-run_batch}
use gortexa.Mcp.Bridge.Post.Caps.{answers, count_p-run_batch}
use gortexa.Mcp.Bridge.Post.Guard.{IsBounded, serve-guard}

-- Entry 1 is a call of tools/list under the id 7, and entry 2 a ping without an id; any other is no
-- object. An entry is a brace and its number.
abbrev listing : Dict String Raw
listing = ("jsonrpc", codes "\"2.0\"") ∷ ("method", 9 ∷ []) ∷ ("id", 55 ∷ []) ∷ []

abbrev notification : Dict String Raw
notification = ("jsonrpc", codes "\"2.0\"") ∷ ("method", 8 ∷ []) ∷ []

abbrev entry : Raw → Option (Dict String Raw)
entry [] = none
entry (c ∷ []) = none
entry (c ∷ d ∷ cs) = if d == 1 then some listing else if d == 2 then some notification else none

abbrev method_text : Raw → Option String
method_text [] = none
method_text (c ∷ cs) = if c == 9 then some "tools/list" else some "ping"

abbrev wire : Wire
wire = record {
  trim_space = λ raw. raw;
  object = entry;
  array = λ raw. none;
  text = method_text;
  number = λ raw. some raw;
  valid = λ raw. true;
  version_param = λ raw. none;
  call_params = λ raw. none;
  media_type = λ s. some (s, []);
  has_json_suffix = λ s. false;
  positive = λ s. true;
  split_commas = λ s. s ∷ [];
  blank = λ s. s == "";
  host = λ s. none;
}

abbrev plain_grpc : Grpc
plain_grpc = record { from_error = λ e. none; with_details = λ s d. none }

-- A backend that counts its calls.
abbrev backend : Backend ℕ ℕ
backend = record {
  new_message = λ name. 0;
  parse = λ name raw. ok 1;
  invoke = λ md name m w. (ok m, suc w);
  print = λ m. some (123 ∷ 125 ∷ []);
}

abbrev bridge : Bridge
bridge = record {
  registry = default_registry;
  tools = [];
  order = [];
  mcp_tools = [];
  allowed_origins = [];
}

abbrev request : HttpRequest
request = record {
  method = "POST";
  origin = "http://evil.example";
  content_type = "application/json";
  accept = "";
  authorization = "Bearer t";
  request_id = "r-1";
  versions = [];
  remote_addr = "10.0.0.1";
  body = some [];
}

abbrev entries : List Raw
entries = (123 ∷ 1 ∷ []) ∷ (123 ∷ 2 ∷ []) ∷ (123 ∷ 1 ∷ []) ∷ (9 ∷ []) ∷ []

map-run_batch_example :
    map
      (λ resp. resp.id)
      (run_batch wire backend plain_grpc default_registry bridge request entries [] 0).0
    ≡ answered_ids wire entries
map-run_batch_example =
    map-run_batch wire backend plain_grpc default_registry bridge request entries [] 0 refl

count_p-run_batch_example :
    count_p
      (λ resp. answers "tools/list" resp.outcome)
      (run_batch wire backend plain_grpc default_registry bridge request entries [] 0).0
    ≤ 1
unfolding lookup
count_p-run_batch_example =
    count_p-run_batch wire backend plain_grpc default_registry bridge "tools/list" 1 request entries
      0 refl

serve-guard_example :
    ((serve wire backend plain_grpc default_registry bridge request 0).1 ≡ 0)
    ⊎ ((origin_allowed bridge.allowed_origins request.origin ≡ true)
        × ((request.method == "POST") ≡ true)
        × (is_supported_json_content_type wire request.content_type ≡ true)
        × ((request_version request.versions).1 ≡ true)
        × IsBounded request.body)
serve-guard_example = serve-guard wire backend plain_grpc default_registry bridge request 0

address-printable : printable_ascii (client_ip wire request) ≡ true
unfolding printable_ascii all_printable client_ip or_own
address-printable = refl

outgoing_metadata-AllPrintable_example : AllPrintable (outgoing_metadata wire request)
outgoing_metadata-AllPrintable_example =
    outgoing_metadata-AllPrintable wire request address-printable

abbrev make : Method
make = record {
  name = "Make";
  input = "shop.Item";
  output = "shop.Item";
  streaming_client = false;
  streaming_server = false;
  ai_tool = some (record {
    expose = true;
    name = "";
    description = "Makes.";
    read_only = false;
    destructive = true;
  });
}

abbrev services : List Service
services = record { name = "shop.Items"; methods = make ∷ [] } ∷ []

abbrev messages : String → Message
messages name = record { fields = []; oneofs = [] }

new_bridge-IsCatalogue_example : IsCatalogue (new_bridge messages services default_registry)
new_bridge-IsCatalogue_example = new_bridge-IsCatalogue messages services default_registry
