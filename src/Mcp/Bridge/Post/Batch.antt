-- ===== src/Mcp/Bridge/Post/Batch.antt =====
-- mcp/bridge.go: under which ids a batch is answered.
use gortexa.Common.{
  ℕ, String, string_eq, nat_eq, Option, none, some, List, [], ◌∷◌, leb, ◌≡◌, refl, map, ap, if_elim,
  ◌∙◌, sym, Bool, true, false, false≢true, Bool-cases, inl, inr, if◌then◌else◌, ◌&&◌,
}
use gortexa.Common.Text.{codes_equal}
use gortexa.Common.Dict.{Dict, lookup}
use gortexa.Apperr.Registry.{Registry}
use gortexa.Apperr.Resolve.{Grpc}
use gortexa.Mcp.Bridge.{Raw, null, Wire, RpcRequest, RpcResponse}
use gortexa.Mcp.Bridge.Call.{HttpRequest, Bridge, Backend, dispatch}
use gortexa.Mcp.Bridge.Request.{
  Validated, good, bad, validate_rpc_request, with_method, with_id, with_params, id_or_null,
  id_or_fallback, valid_rpc_id, valid_trimmed_id, valid_rpc_params, speaks_version, method_of,
}
use gortexa.Mcp.Bridge.Post.{
  Step, add_response, dispatched, capped, request_step, validated_step, fields_step, entry_fields,
  run_batch, max_per_batch, or_zero,
}

-- The id under which an entry is answered, with none for a notification.
abbrev pub request_answer_id : Raw → Option Raw
request_answer_id [] = none
request_answer_id (c ∷ cs) = some (c ∷ cs)

abbrev validated_id : Validated → Option Raw
validated_id (bad id e) = some id
validated_id (good q) = request_answer_id q.id

abbrev pub is_named : Option String → Bool
is_named none = false
is_named (some method) = true

abbrev pub are_params : Wire → Option Raw → Bool
are_params w none = true
are_params w (some raw) = valid_rpc_params w raw

-- Whether an object is a request, its id apart: of version 2.0, with a method, and with parameters
-- that are an object or a list where it has any.
abbrev pub is_request : Wire → Dict String Raw → Bool
is_request w fields =
    speaks_version w (lookup "jsonrpc" fields)
    && (is_named (method_of w (lookup "method" fields)) && are_params w (lookup "params" fields))

-- The id to answer under, from that of the entry and whether it is a request: a valid id as it is,
-- null for one that is not valid; without an id none for a request, and null for what is none.
abbrev pub entry_id : Wire → Option Raw → Bool → Option Raw
entry_id w none request = if request then none else some null
entry_id w (some id) request = some (if valid_rpc_id w id then id else null)

abbrev pub fields_id : Wire → Option (Dict String Raw) → Option Raw
fields_id w none = some null
fields_id w (some fields) = entry_id w (lookup "id" fields) (is_request w fields)

-- What a blank text trims to is blank, and so no id.
blank_id : (w : Wire) → w.trim_space [] ≡ [] → valid_rpc_id w [] ≡ false
unfolding valid_rpc_id valid_trimmed_id codes_equal
blank_id w h = rw h refl

fallback-entry_id : (w : Wire) (id : Option Raw) → some (id_or_fallback w id) ≡ entry_id w id false
unfolding id_or_fallback
fallback-entry_id w none = refl
fallback-entry_id w (some id) = refl

with_params-id :
    (w : Wire) (id : Raw) (method : String) (params : Option Raw)
    → validated_id (with_params w id method params)
      ≡ (if are_params w params then request_answer_id id else some (id_or_null id))
unfolding with_params
with_params-id w id method none = refl
with_params-id w id method (some raw) = elim (Bool-cases (valid_rpc_params w raw)) [
  | inl fine ↦ rw fine refl
  | inr wrong ↦ rw wrong refl
]

answered_anyway :
    (w : Wire) (id : Raw) (b : Bool)
    → w.trim_space [] ≡ []
    → valid_rpc_id w id ≡ true
    → (if b then request_answer_id id else some (id_or_null id)) ≡ some id
unfolding id_or_null
answered_anyway w [] b h valid = absurd (false≢true (sym (blank_id w h) ∙ valid))
answered_anyway w (c ∷ cs) true h valid = refl
answered_anyway w (c ∷ cs) false h valid = refl

with_id-id :
    (w : Wire) (method : String) (id params : Option Raw)
    → w.trim_space [] ≡ []
    → validated_id (with_id w method id params) ≡ entry_id w id (are_params w params)
unfolding with_id id_or_null
with_id-id w method none params h = with_params-id w [] method params
with_id-id w method (some id) params h = elim (Bool-cases (valid_rpc_id w id)) [
  | inl valid ↦
      rw valid
        (with_params-id w id method params ∙ answered_anyway w id (are_params w params) h valid)
  | inr wrong ↦ rw wrong refl
]

with_method-id :
    (w : Wire) (method : Option String) (fields : Dict String Raw)
    → w.trim_space [] ≡ []
    → validated_id (with_method w method fields)
      ≡ entry_id w (lookup "id" fields) (is_named method && are_params w (lookup "params" fields))
unfolding with_method
with_method-id w none fields h = fallback-entry_id w (lookup "id" fields)
with_method-id w (some method) fields h =
    with_id-id w method (lookup "id" fields) (lookup "params" fields) h

validate_rpc_request-id :
    (w : Wire) (fields : Dict String Raw)
    → w.trim_space [] ≡ []
    → validated_id (validate_rpc_request w fields) ≡ fields_id w (some fields)
unfolding validate_rpc_request
validate_rpc_request-id w fields h =
    elim (Bool-cases (speaks_version w (lookup "jsonrpc" fields))) [
      | inl speaks ↦ rw speaks (with_method-id w (method_of w (lookup "method" fields)) fields h)
      | inr other ↦ rw other (fallback-entry_id w (lookup "id" fields))
    ]

abbrev add_id : Option Raw → List Raw → List Raw
add_id none ids = ids
add_id (some id) ids = id ∷ ids

abbrev pub answered_ids : Wire → List Raw → List Raw
answered_ids w [] = []
answered_ids w (raw ∷ raws) =
    add_id (fields_id w (entry_fields w (w.trim_space raw))) (answered_ids w raws)

abbrev response_id : Option RpcResponse → Option Raw
response_id none = none
response_id (some resp) = some resp.id

map-add_response :
    (o : Option RpcResponse) (rs : List RpcResponse)
    → map (λ resp. resp.id) (add_response o rs) ≡ add_id (response_id o) (map (λ resp. resp.id) rs)
unfolding add_response
map-add_response none rs = refl
map-add_response (some resp) rs = refl

module _ {M W : Type 0} (w : Wire) (backend : Backend M W) (grpc : Grpc) (default : Registry)
    (b : Bridge) where
  response_id-capped :
      (r : HttpRequest) (q : RpcRequest) (limit : Option ℕ) (served : Dict String ℕ) (world : W)
      → response_id (capped w backend grpc default b r q limit served world).response ≡ some q.id
  unfolding capped dispatched dispatch
  response_id-capped r q none served world = refl
  response_id-capped r q (some limit) served world =
      if_elim {A = Step W} (λ step. response_id step.response ≡ some q.id)
        (leb limit (or_zero (lookup q.method served))) (λ full. refl) (λ room. refl)

  response_id-request_step :
      (r : HttpRequest) (q : RpcRequest) (id : Raw) (served : Dict String ℕ) (world : W)
      → q.id ≡ id
      → response_id (request_step w backend grpc default b r q id served world).response
        ≡ request_answer_id id
  unfolding request_step
  response_id-request_step r q [] served world same = refl
  response_id-request_step r q (c ∷ cs) served world same =
      response_id-capped r q (lookup q.method max_per_batch) served world ∙ ap some same

  response_id-validated_step :
      (r : HttpRequest) (v : Validated) (served : Dict String ℕ) (world : W)
      → response_id (validated_step w backend grpc default b r v served world).response
        ≡ validated_id v
  unfolding validated_step
  response_id-validated_step r (bad id e) served world = refl
  response_id-validated_step r (good q) served world =
      response_id-request_step r q q.id served world refl

  response_id-fields_step :
      (r : HttpRequest) (fields : Option (Dict String Raw)) (served : Dict String ℕ) (world : W)
      → w.trim_space [] ≡ []
      → response_id (fields_step w backend grpc default b r fields served world).response
        ≡ fields_id w fields
  unfolding fields_step
  response_id-fields_step r none served world h = refl
  response_id-fields_step r (some fields) served world h =
      response_id-validated_step r (validate_rpc_request w fields) served world
      ∙ validate_rpc_request-id w fields h

  -- The responses of a batch have the ids of its entries, in their order: the id of an entry that has
  -- a valid one; null for an id that is not valid, for what is no object, and for an object without
  -- an id that is no request; and no response at all for a request without an id, a notification.
  -- What the methods return, or which of them are capped, does not change that.
  -- The condition is that trimming an empty text leaves it empty.
  pub map-run_batch :
      (r : HttpRequest) (raws : List Raw) (served : Dict String ℕ) (world : W)
      → w.trim_space [] ≡ []
      → map (λ resp. resp.id) (run_batch w backend grpc default b r raws served world).0
        ≡ answered_ids w raws
  unfolding run_batch
  map-run_batch r [] served world h = refl
  map-run_batch r (raw ∷ raws) served world h =
      let fields = entry_fields w (w.trim_space raw) in
      let step = fields_step w backend grpc default b r fields served world in
      map-add_response step.response
        (run_batch w backend grpc default b r raws step.served step.world).0
      ∙ ap
          (λ o. add_id o (
            map (λ resp. resp.id)
              (run_batch w backend grpc default b r raws step.served step.world).0))
          (response_id-fields_step r fields served world h)
      ∙ ap (add_id (fields_id w fields)) (map-run_batch r raws step.served step.world h)
