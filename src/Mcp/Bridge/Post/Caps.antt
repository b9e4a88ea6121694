-- ===== src/Mcp/Bridge/Post/Caps.antt =====
-- mcp/bridge.go: how often a batch is answered by a method that no call governs.
use gortexa.Common.{
  ℕ, suc, String, string_eq, nat_eq, Bool, true, false, Option, none, some, List, [], ◌∷◌, ◌==◌,
  if◌then◌else◌, leb, ◌+◌, ◌-◌, ◌≤◌, ◌≡◌, refl, arith, count_p, ap, inl, inr, Bool-cases, if_elim,
  subst, sym, ◌∙◌, Option-cases, false≢true,
}
use text.Mathlib.TextEquality.{eq_iff}
use mathlib.Core.Option.{some-injective, none-ne-some}
use gortexa.Common.Dict.{Dict, lookup, lookup-insert}
use gortexa.Common.Result.{Result, ok, err}
use gortexa.Apperr.Types.{Err}
use gortexa.Apperr.Registry.{Registry}
use gortexa.Apperr.Resolve.{Grpc}
use gortexa.Mcp.Tools.{Tool}
use gortexa.Mcp.Bridge.{
  Raw, Wire, RpcRequest, RpcResponse, initialized, pong, tools_list, content, tool_error, Outcome,
  result, error,
}
use gortexa.Mcp.Bridge.Call.{
  HttpRequest, Bridge, Backend, dispatch, respond, tools_call, call_with, call_tool, invoke_tool,
  arguments, called, payload_of, printed, call_error, outgoing_metadata,
}
use gortexa.Mcp.Bridge.Request.{Validated, good, bad, validate_rpc_request}
use gortexa.Mcp.Bridge.Post.{
  Step, add_response, dispatched, capped, request_step, validated_step, fields_step, entry_fields,
  run_batch, max_per_batch, or_zero,
}

-- Whether an outcome is the result of a method that is answered without a call.
abbrev pub answers : String → Outcome → Bool
answers m (result (initialized v)) = m == "initialize"
answers m (result pong) = false
answers m (result (tools_list ts)) = m == "tools/list"
answers m (result (content js)) = false
answers m (result (tool_error message category retryable)) = false
answers m (error e) = false

abbrev answers_step : String → Option RpcResponse → Bool
answers_step m none = false
answers_step m (some resp) = answers m resp.outcome

count_p-add_response :
    (m : String) (o : Option RpcResponse) (rs : List RpcResponse)
    → count_p (λ resp. answers m resp.outcome) (add_response o rs)
      ≡ (if answers_step m o then 1 else 0) + count_p (λ resp. answers m resp.outcome) rs
unfolding add_response
count_p-add_response m none rs = omega arith
count_p-add_response m (some resp) rs = refl

same_text : (s t u : String) → (s == u) ≡ true → (t == u) ≡ true → (s == t) ≡ true
same_text s t u h k = ground (arith, h, k, eq_iff s u, eq_iff t u, eq_iff s t)

module _ {M W : Type 0} (w : Wire) (backend : Backend M W) (grpc : Grpc) (default : Registry)
    (b : Bridge) where
  payload_of-answers :
      (m : String) (out : Result Err M)
      → answers m (result (payload_of w backend grpc default b out)) ≡ false
  unfolding payload_of call_error printed
  payload_of-answers m (err e) = refl
  payload_of-answers m (ok out) = elim (Option-cases (backend.print out)) [
    | inl h ↦ rw h refl
    | inr (js, h) ↦ rw h refl
  ]

  invoke_tool-answers :
      (m : String) (r : HttpRequest) (t : Tool) (args : Result String M) (world : W)
      → answers m (invoke_tool w backend grpc default b r t args world).0 ≡ false
  unfolding invoke_tool called
  invoke_tool-answers m r t (err message) world = refl
  invoke_tool-answers m r t (ok message) world =
      payload_of-answers m (backend.invoke (outgoing_metadata w r) t.full_method message world).0

  call_with-answers :
      (m : String) (r : HttpRequest) (params : Option (String × Raw)) (world : W)
      → answers m (call_with w backend grpc default b r params world).0 ≡ false
  unfolding call_with call_tool
  call_with-answers m r none world = refl
  call_with-answers m r (some (name, args)) world = elim (Option-cases (lookup name b.tools)) [
    | inl h ↦ rw h refl
    | inr (t, h) ↦
        rw h (invoke_tool-answers m r t (arguments w backend grpc default b t.input args) world)
  ]

  -- Only the method of a request gives the result of that method.
  respond-answers :
      (m : String) (r : HttpRequest) (q : RpcRequest) (world : W)
      → answers m (respond w backend grpc default b r q world).0 ≡ true
      → (q.method == m) ≡ true
  unfolding respond tools_call
  respond-answers m r q world =
      let P : Outcome × W → Type 0 = λ out. answers m out.0 ≡ true → (q.method == m) ≡ true in
      if_elim P (q.method == "initialize") (λ i a. same_text q.method m "initialize" i a)
        (λ n1.
          if_elim P (q.method == "ping") (λ i a. absurd (false≢true a))
            (λ n2.
              if_elim P (q.method == "tools/list") (λ i a. same_text q.method m "tools/list" i a)
                (λ n3.
                  if_elim P (q.method == "tools/call")
                    (λ i a.
                      absurd (
                        false≢true
                          (sym (call_with-answers m r (w.call_params q.params) world) ∙ a)))
                    (λ n4 a. absurd (false≢true a)))))

  respond-quiet :
      (m : String) (r : HttpRequest) (q : RpcRequest) (world : W)
      → (q.method == m) ≡ false
      → answers m (respond w backend grpc default b r q world).0 ≡ false
  respond-quiet m r q world miss =
      elim (Bool-cases (answers m (respond w backend grpc default b r q world).0)) [
        | inl a ↦ absurd (false≢true (sym miss ∙ respond-answers m r q world a))
        | inr a ↦ a
      ]

  -- What a step leaves of the room that a capped method has.
  abbrev Leaves : String → ℕ → Dict String ℕ → Step W → Type 0
  Leaves m limit served step =
      (if answers_step m step.response then 1 else 0) + (limit - or_zero (lookup m step.served))
      ≤ limit - or_zero (lookup m served)

  dispatched-uncapped :
      (m : String) (limit : ℕ) (r : HttpRequest) (q : RpcRequest) (served : Dict String ℕ)
      (world : W)
      → lookup m max_per_batch ≡ some limit
      → lookup q.method max_per_batch ≡ none
      → Leaves m limit served (dispatched w backend grpc default b r q served world)
  unfolding dispatched dispatch
  dispatched-uncapped m limit r q served world h uncapped =
      elim (Bool-cases (answers m (respond w backend grpc default b r q world).0)) [
        | inl a ↦
            let same : q.method ≡ m = (eq_iff q.method m).0 (respond-answers m r q world a) in
            absurd (none-ne-some limit (sym uncapped ∙ ap (λ n. lookup n max_per_batch) same ∙ h))
        | inr a ↦ rw a (omega arith)
      ]

  capped-Leaves :
      (m : String) (limit l : ℕ) (r : HttpRequest) (q : RpcRequest) (served : Dict String ℕ)
      (world : W)
      → lookup m max_per_batch ≡ some limit
      → lookup q.method max_per_batch ≡ some l
      → Leaves m limit served (capped w backend grpc default b r q (some l) served world)
  unfolding capped dispatched dispatch
  capped-Leaves m limit l r q served world h known =
      if_elim {A = Step W} (Leaves m limit served) (leb l (or_zero (lookup q.method served)))
        (λ full. omega arith)
        (λ room. elim (Bool-cases (q.method == m)) [
          | inl hit ↦
              let same : q.method ≡ m = (eq_iff q.method m).0 hit in
              let limits : l ≡ limit =
                some-injective l limit (sym known ∙ ap (λ n. lookup n max_per_batch) same ∙ h) in
              let counts : or_zero (lookup q.method served) ≡ or_zero (lookup m served) =
                ap (λ n. or_zero (lookup n served)) same in
              rw (lookup-insert q.method m (suc (or_zero (lookup q.method served))) served, hit)
                (ground (arith, room, limits, counts))
          | inr miss ↦
              let quiet : answers m (respond w backend grpc default b r q world).0 ≡ false =
                respond-quiet m r q world miss in
              rw
                (
                  lookup-insert q.method m (suc (or_zero (lookup q.method served))) served,
                  miss,
                  quiet,
                )
                (omega arith)
        ])

  request_step-Leaves :
      (m : String) (limit : ℕ) (r : HttpRequest) (q : RpcRequest) (id : Raw)
      (served : Dict String ℕ) (world : W)
      → lookup m max_per_batch ≡ some limit
      → Leaves m limit served (request_step w backend grpc default b r q id served world)
  unfolding request_step capped
  request_step-Leaves m limit r q [] served world h = omega arith
  request_step-Leaves m limit r q (c ∷ cs) served world h =
      elim (Option-cases (lookup q.method max_per_batch)) [
        | inl uncapped ↦
            subst (λ o. Leaves m limit served (capped w backend grpc default b r q o served world))
              (sym uncapped) (dispatched-uncapped m limit r q served world h uncapped)
        | inr (l, known) ↦
            subst (λ o. Leaves m limit served (capped w backend grpc default b r q o served world))
              (sym known) (capped-Leaves m limit l r q served world h known)
      ]

  validated_step-Leaves :
      (m : String) (limit : ℕ) (r : HttpRequest) (v : Validated) (served : Dict String ℕ)
      (world : W)
      → lookup m max_per_batch ≡ some limit
      → Leaves m limit served (validated_step w backend grpc default b r v served world)
  unfolding validated_step
  validated_step-Leaves m limit r (bad id e) served world h = omega arith
  validated_step-Leaves m limit r (good q) served world h =
      request_step-Leaves m limit r q q.id served world h

  fields_step-Leaves :
      (m : String) (limit : ℕ) (r : HttpRequest) (fields : Option (Dict String Raw))
      (served : Dict String ℕ) (world : W)
      → lookup m max_per_batch ≡ some limit
      → Leaves m limit served (fields_step w backend grpc default b r fields served world)
  unfolding fields_step
  fields_step-Leaves m limit r none served world h = omega arith
  fields_step-Leaves m limit r (some fields) served world h =
      validated_step-Leaves m limit r (validate_rpc_request w fields) served world h

  count_p-run_batch_room :
      (m : String) (limit : ℕ) (r : HttpRequest) (raws : List Raw) (served : Dict String ℕ)
      (world : W)
      → lookup m max_per_batch ≡ some limit
      → count_p
          (λ resp. answers m resp.outcome)
          (run_batch w backend grpc default b r raws served world).0
        ≤ limit - or_zero (lookup m served)
  unfolding run_batch
  count_p-run_batch_room m limit r [] served world h = omega arith
  count_p-run_batch_room m limit r (raw ∷ raws) served world h =
      let fields = entry_fields w (w.trim_space raw) in
      let step = fields_step w backend grpc default b r fields served world in
      let rest = (run_batch w backend grpc default b r raws step.served step.world).0 in
      omega (
        arith,
        count_p-add_response m step.response rest,
        fields_step-Leaves m limit r fields served world h,
        count_p-run_batch_room m limit r raws step.served step.world h,
      )

  -- Of the results of a batch, at most as many are those of a capped method as its cap allows, however
  -- many requests the batch has.
  pub count_p-run_batch :
      (m : String) (limit : ℕ) (r : HttpRequest) (raws : List Raw) (world : W)
      → lookup m max_per_batch ≡ some limit
      → count_p
          (λ resp. answers m resp.outcome)
          (run_batch w backend grpc default b r raws [] world).0
        ≤ limit
  count_p-run_batch m limit r raws world h =
      omega (arith, count_p-run_batch_room m limit r raws [] world h)
