-- ===== src/Mcp/Bridge/Post/Guard.antt =====
-- mcp/bridge.go: what a request has that reaches a tool.
use gortexa.Common.{
  ℕ, String, string_eq, nat_eq, true, false, Option, none, some, [], ◌∷◌, ◌==◌, ◌&&◌, not, ltb,
  length, take, ◌+◌, ◌≤◌, ◌≡◌, ◌⊎◌, refl, arith, inl, inr, Bool-cases, if_elim,
}
use gortexa.Common.Dict.{Dict}
use gortexa.Apperr.Registry.{Registry}
use gortexa.Apperr.Resolve.{Grpc}
use gortexa.HttpLimits.{max_request_bytes}
use gortexa.Mcp.Bridge.{Raw, Wire, RpcRequest, request_version, origin_allowed, Outcome}
use gortexa.Mcp.Bridge.Call.{HttpRequest, Bridge, Backend, dispatch, respond}
use gortexa.Mcp.Bridge.Request.{Validated, good, bad, validate_rpc_request}
use gortexa.Mcp.Bridge.Post.{
  Reply, single_request, single_validated, single_fields, handle_single_post, batch_post,
  trimmed_post, read_post, handle_post, serve, is_supported_json_content_type,
}

-- A body that is read whole and is within the bound.
abbrev pub IsBounded : Option Raw → Type 0
IsBounded none = ⊥
IsBounded (some body) = length (take (max_request_bytes + 1) body) ≤ max_request_bytes

within_bound : (m n : ℕ) → ltb m n ≡ false → n ≤ m
within_bound m n h = ground (arith, h)

module _ {M W : Type 0} (w : Wire) (backend : Backend M W) (grpc : Grpc) (default : Registry)
    (b : Bridge) where
  respond-initialize :
      (r : HttpRequest) (q : RpcRequest) (world : W)
      → (q.method == "initialize") ≡ true
      → (respond w backend grpc default b r q world).1 ≡ world
  unfolding respond
  respond-initialize r q world h =
      if_elim {A = Outcome × W} (λ out. out.1 ≡ world) (q.method == "initialize") (λ i. refl)
        (λ n. ground (arith, h, n))

  single_request-initialize :
      (r : HttpRequest) (q : RpcRequest) (id : Raw) (world : W)
      → (q.method == "initialize") ≡ true
      → (single_request w backend grpc default b r q id world).1 ≡ world
  unfolding single_request dispatch
  single_request-initialize r q [] world h = refl
  single_request-initialize r q (c ∷ cs) world h = respond-initialize r q world h

  single_validated-unsupported :
      (r : HttpRequest) (v : Validated) (world : W)
      → (single_validated w backend grpc default b r v false world).1 ≡ world
  unfolding single_validated
  single_validated-unsupported r (bad id e) world = refl
  single_validated-unsupported r (good q) world =
      if_elim {A = Reply × W} (λ out. out.1 ≡ world) (not false && not (q.method == "initialize"))
        (λ refused. refl)
        (λ passed. single_request-initialize r q q.id world (ground (arith, passed)))

  single_fields-unsupported :
      (r : HttpRequest) (fields : Option (Dict String Raw)) (world : W)
      → (single_fields w backend grpc default b r fields false world).1 ≡ world
  unfolding single_fields
  single_fields-unsupported r none world = refl
  single_fields-unsupported r (some fields) world =
      single_validated-unsupported r (validate_rpc_request w fields) world

  trimmed_post-unsupported :
      (r : HttpRequest) (body : Raw) (world : W)
      → (request_version r.versions).1 ≡ false
      → (trimmed_post w backend grpc default b r body world).1 ≡ world
  unfolding trimmed_post handle_single_post batch_post
  trimmed_post-unsupported r [] world old = refl
  trimmed_post-unsupported r (c ∷ cs) world old =
      if_elim {A = Reply × W} (λ out. out.1 ≡ world) (c == 91) (λ list. rw old refl)
        (λ other.
          if_elim {A = Reply × W} (λ out. out.1 ≡ world) (c == 123)
            (λ object. rw old (single_fields-unsupported r (w.object (c ∷ cs)) world))
            (λ neither. refl))

  -- The rest of the tests: the version, the body, the media type, the method and the origin.
  trimmed_post-guard :
      (r : HttpRequest) (body : Raw) (world : W)
      → ((trimmed_post w backend grpc default b r body world).1 ≡ world)
        ⊎ ((request_version r.versions).1 ≡ true)
  trimmed_post-guard r body world = elim (Bool-cases (request_version r.versions).1) [
    | inl fine ↦ inr fine
    | inr old ↦ inl (trimmed_post-unsupported r body world old)
  ]

  read_post-guard :
      (r : HttpRequest) (body : Option Raw) (world : W)
      → ((read_post w backend grpc default b r body world).1 ≡ world)
        ⊎ (((request_version r.versions).1 ≡ true) × IsBounded body)
  unfolding read_post
  read_post-guard r none world = inl refl
  read_post-guard r (some body) world =
      elim (Bool-cases (ltb max_request_bytes (length (take (max_request_bytes + 1) body)))) [
        | inl large ↦ inl (rw large refl)
        | inr fits ↦
            elim (trimmed_post-guard r (w.trim_space (take (max_request_bytes + 1) body)) world) [
              | inl same ↦ inl (rw fits same)
              | inr fine ↦ inr (
                fine,
                within_bound max_request_bytes (length (take (max_request_bytes + 1) body)) fits,
              )
            ]
      ]

  -- A request changes nothing, since it calls no tool, unless its origin is allowed, it is a POST of a
  -- JSON media type, its body is read and within the bound, and the version that it names, if it names
  -- one, is supported.
  pub serve-guard :
      (r : HttpRequest) (world : W)
      → ((serve w backend grpc default b r world).1 ≡ world)
        ⊎ ((origin_allowed b.allowed_origins r.origin ≡ true)
            × ((r.method == "POST") ≡ true)
            × (is_supported_json_content_type w r.content_type ≡ true)
            × ((request_version r.versions).1 ≡ true)
            × IsBounded r.body)
  unfolding serve handle_post
  serve-guard r world = elim (Bool-cases (origin_allowed b.allowed_origins r.origin)) [
    | inr foreign ↦ inl (rw foreign refl)
    | inl home ↦ elim (Bool-cases (r.method == "POST")) [
      | inr other ↦ inl (rw (home, other) refl)
      | inl post ↦ elim (Bool-cases (is_supported_json_content_type w r.content_type)) [
        | inr foreign_type ↦ inl (rw (home, post, foreign_type) refl)
        | inl json ↦ elim (read_post-guard r r.body world) [
          | inl same ↦ inl (rw (home, post, json) same)
          | inr (fine, bounded) ↦ inr (home, post, json, fine, bounded)
        ]
      ]
    ]
  ]
