-- ===== src/Mcp/Bridge/Request.antt =====
-- mcp/bridge.go: the shape of a JSON-RPC request.
use gortexa.Common.{
  ℕ, String, nat_eq, string_eq, Bool, true, false, Option, none, some, [], ◌∷◌, ◌==◌, ◌||◌, ◌&&◌,
  not, if◌then◌else◌, length, ltb, leb,
}
use gortexa.Common.Dict.{Dict, lookup}
use gortexa.Common.Members.{contains}
use gortexa.Common.Text.{codes, codes_equal}
use gortexa.Mcp.Bridge.{Raw, null, Wire, RpcError, rpc_error, RpcRequest}

abbrev pub max_rpc_id_number_len : ℕ
max_rpc_id_number_len = 32

abbrev pub max_rpc_id_string_len : ℕ
max_rpc_id_string_len = 256

abbrev parses {ℓ} : {A : Type ℓ} → Option A → Bool
parses none = false
parses (some a) = true

-- No '.', 'e' or 'E'.
unfoldable pub is_integer : Option Raw → Bool
is_integer none = false
is_integer (some n) = not (contains n 46 || (contains n 101 || contains n 69))

module _ (w : Wire) where
  -- The switch on the first byte: '"', a digit or '-', or any other.
  unfoldable pub valid_trimmed_id : Raw → Bool
  unfolding is_integer
  valid_trimmed_id [] = false
  valid_trimmed_id (c ∷ cs) =
      if c == 34
      then (if ltb max_rpc_id_string_len (length (c ∷ cs)) then false else parses (w.text (c ∷ cs)))
      else if c == 45 || (leb 48 c && leb c 57)
      then (if ltb max_rpc_id_number_len (length (c ∷ cs))
          then false
          else is_integer (w.number (c ∷ cs)))
      else false

  -- validRPCID
  unfoldable pub valid_rpc_id : Raw → Bool
  unfolding codes_equal valid_trimmed_id
  valid_rpc_id raw =
      if codes_equal (w.trim_space raw) null then true else valid_trimmed_id (w.trim_space raw)

  unfoldable pub valid_trimmed_params : Raw → Bool
  valid_trimmed_params [] = false
  valid_trimmed_params (c ∷ cs) = (c == 123 || c == 91) && w.valid (c ∷ cs)

  -- validRPCParams
  unfoldable pub valid_rpc_params : Raw → Bool
  unfolding valid_trimmed_params
  valid_rpc_params raw = valid_trimmed_params (w.trim_space raw)

  -- requestID, null being the fallback
  unfoldable pub id_or_fallback : Option Raw → Raw
  unfolding valid_rpc_id
  id_or_fallback none = null
  id_or_fallback (some raw) = if valid_rpc_id raw then raw else null

-- idOrNull
unfoldable pub id_or_null : Raw → Raw
id_or_null [] = null
id_or_null (b ∷ bs) = b ∷ bs

-- A request, or the id that the error goes to.
pub data Validated : Type 0 where
  good : RpcRequest → Validated
  bad : Raw → RpcError → Validated

abbrev pub invalid_request : RpcError
invalid_request = rpc_error 32600 "invalid request"

module _ (w : Wire) where
  unfoldable pub with_params : Raw → String → Option Raw → Validated
  unfolding valid_rpc_params
  with_params id method none = good (record { id = id; method = method; params = [] })
  with_params id method (some raw) =
      if valid_rpc_params w raw
      then good (record { id = id; method = method; params = raw })
      else bad (id_or_null id) invalid_request

  unfoldable pub with_id : String → Option Raw → Option Raw → Validated
  unfolding with_params valid_rpc_id
  with_id method none params = with_params [] method params
  with_id method (some raw) params =
      if valid_rpc_id w raw then with_params raw method params else bad null invalid_request

  unfoldable pub with_method : Option String → Dict String Raw → Validated
  unfolding with_id
  with_method none fields = bad (id_or_fallback w (lookup "id" fields)) invalid_request
  with_method (some method) fields = with_id method (lookup "id" fields) (lookup "params" fields)

  unfoldable pub method_of : Option Raw → Option String
  method_of none = none
  method_of (some raw) = w.text raw

  unfoldable pub speaks_version : Option Raw → Bool
  speaks_version none = false
  speaks_version (some raw) = codes_equal raw (codes "\"2.0\"")

  -- validateRPCRequest
  unfoldable pub validate_rpc_request : Dict String Raw → Validated
  unfolding with_method
  validate_rpc_request fields =
      if speaks_version (lookup "jsonrpc" fields)
      then with_method (method_of (lookup "method" fields)) fields
      else bad (id_or_fallback w (lookup "id" fields)) invalid_request
