-- ===== src/Mcp/Tools/Valid.antt =====
-- mcp/ir.go: what a tool that BuildIR returns has.
use gortexa.Common.{
  ℕ, suc, String, Bool, true, false, Option, none, some, List, [], ◌∷◌, ◌++◌, ◌&&◌, ◌||◌, ◌≤◌, ◌≡◌,
  ◌+◌, refl, if◌then◌else◌, All, length, count_p, arith, inl, inr, subst, ◌∙◌, Bool-cases, if_elim,
}
use gortexa.Common.Text.{
  codes, byte_length, sort_by, sorted_insert, IsSorted, sort_by-IsSorted, sort_by-All, text_le,
}
use gortexa.Common.Result.{Result, ok, err, ◌>>=◌, Result-cases}
use gortexa.Mcp.Schema.{Schema, SchemaError, Message, schema_for_message, max_schema_depth}
use gortexa.Mcp.Schema.Leaves.{Returns}
use gortexa.Mcp.Schema.Portable.{IsPortable, schema_for_message-IsPortable}
use gortexa.Mcp.Tools.{
  Tool, ToolError, Method, AiTool, exposed, tool_name, make_tool, validate_tool, or_error, tool_of,
  next_tool, tools_of, build_ir, tool_name_matches, max_tool_name_len,
}

-- A tool that every provider takes.
abbrev pub IsTool : Tool → Type 0
IsTool t =
    (byte_length (codes t.name) ≤ max_tool_name_len)
    × (tool_name_matches (codes t.name) ≡ true)
    × ((t.read_only && t.destructive) ≡ false)
    × IsPortable t.input_schema

abbrev has : Option AiTool → Bool
has none = false
has (some o) = true

abbrev pub is_exposed : Method → Bool
is_exposed m = has (exposed m.ai_tool)

validate_tool-none :
    (name : String) (read_only destructive : Bool)
    → validate_tool name read_only destructive ≡ none
    → (byte_length (codes name) ≤ max_tool_name_len)
      × (tool_name_matches (codes name) ≡ true)
      × ((read_only && destructive) ≡ false)
unfolding validate_tool
validate_tool-none name read_only destructive h =
    (ground (arith, h), ground (arith, h), ground (arith, h))

abbrev ReturnsTool : String → Result ToolError Tool → Type 0
ReturnsTool service (ok t) = IsTool t
ReturnsTool service (err e) = Unit

make_tool-IsTool :
    (service : String) (m : Method) (o : AiTool) (r : Result SchemaError Schema)
    → Returns IsPortable r
    → validate_tool (tool_name m o) o.read_only o.destructive ≡ none
    → ReturnsTool service (make_tool service m o r)
unfolding make_tool
make_tool-IsTool service m o (err e) h valid = tt
make_tool-IsTool service m o (ok s) h valid =
    let (short, matches, exclusive) =
      validate_tool-none (tool_name m o) o.read_only o.destructive valid in
    (short, matches, exclusive, h)

or_error-IsTool :
    (service : String) (v : Option ToolError) (r : Result ToolError Tool)
    → (v ≡ none → ReturnsTool service r)
    → ReturnsTool service (or_error v r)
unfolding or_error
or_error-IsTool service none r h = h refl
or_error-IsTool service (some e) r h = tt

Exposed-snoc :
    (P : Tool → Type 0) (tools : List Tool) (t : Tool) → All P tools → P t → All P (tools ++ t ∷ [])
Exposed-snoc P [] t a h = (h, tt)
Exposed-snoc P (u ∷ tools) t a h = (a.0, Exposed-snoc P tools t a.1 h)

length-snoc : (tools : List Tool) (t : Tool) → length (tools ++ t ∷ []) ≡ suc (length tools)
length-snoc [] t = refl
length-snoc (u ∷ tools) t = omega (arith, length-snoc tools t)

length-sorted_insert :
    (t : Tool) (tools : List Tool)
    → length (sorted_insert (λ u. u.name) t tools) ≡ suc (length tools)
unfolding sorted_insert
length-sorted_insert t [] = refl
length-sorted_insert t (u ∷ tools) = elim (Bool-cases (text_le t.name u.name)) [
  | inl before ↦ rw (before, sorted_insert) refl
  | inr after ↦ rw (after, sorted_insert) (omega (arith, length-sorted_insert t tools))
]

length-sort_by : (tools : List Tool) → length (sort_by (λ u. u.name) tools) ≡ length tools
unfolding sort_by
length-sort_by [] = refl
length-sort_by (t ∷ tools) =
    omega (arith, length-sorted_insert t (sort_by (λ u. u.name) tools), length-sort_by tools)

module _ (messages : String → Message) (service : String) where
  tool_of-IsTool : (m : Method) (o : AiTool) → ReturnsTool service (tool_of messages service m o)
  unfolding tool_of
  tool_of-IsTool m o =
      if_elim (ReturnsTool service) (m.streaming_client || m.streaming_server) (λ stream. tt)
        (λ unary.
          or_error-IsTool service (validate_tool (tool_name m o) o.read_only o.destructive)
            (make_tool service m o (schema_for_message messages max_schema_depth m.input))
            (make_tool-IsTool service m o (schema_for_message messages max_schema_depth m.input)
              (schema_for_message-IsPortable messages max_schema_depth m.input)))

  -- The tools of the methods so far, and how many of them there must be.
  ReturnsTools : ℕ → Result ToolError (List Tool) → Type 0
  ReturnsTools n (ok tools) = All IsTool tools × (length tools ≡ n)
  ReturnsTools n (err e) = Unit

  next_tool-ReturnsTools :
      (m : Method) (o : Option AiTool) (tools : List Tool)
      → All IsTool tools
      → ReturnsTools
          (length tools + (if has o then 1 else 0))
          (next_tool messages service m o tools)
  unfolding next_tool ReturnsTools
  next_tool-ReturnsTools m none tools a = (a, omega arith)
  next_tool-ReturnsTools m (some o) tools a = elim (Result-cases (tool_of messages service m o)) [
    | inl (t, made) ↦
        let h : IsTool t = subst (ReturnsTool service) made (tool_of-IsTool m o) in
        rw made (Exposed-snoc IsTool tools t a h, omega (arith, length-snoc tools t))
    | inr (e, failed) ↦ rw failed tt
  ]

  tools_of-ReturnsTools :
      (ms : List Method) (tools : List Tool)
      → All IsTool tools
      → ReturnsTools (length tools + count_p is_exposed ms) (tools_of messages service ms tools)
  unfolding tools_of ReturnsTools
  tools_of-ReturnsTools [] tools a = (a, omega arith)
  tools_of-ReturnsTools (m ∷ ms) tools a =
      elim (Result-cases (next_tool messages service m (exposed m.ai_tool) tools)) [
        | inl (more, made) ↦
            let h =
              subst (ReturnsTools (length tools + (if is_exposed m then 1 else 0))) made
                (next_tool-ReturnsTools m (exposed m.ai_tool) tools a) in
            let counted : length more + count_p is_exposed ms
                ≡ length tools + count_p is_exposed (m ∷ ms) =
              omega (arith, h.1) in
            rw made (
              subst (λ n. ReturnsTools n (tools_of messages service ms more)) counted
                (tools_of-ReturnsTools ms more h.0))
        | inr (e, failed) ↦ rw failed tt
      ]

zero_add : (n : ℕ) → 0 + n ≡ n
zero_add n = omega arith

-- The tools that are built, when no method is refused.
abbrev pub BuildsTools : List Method → Result ToolError (List Tool) → Type 0
BuildsTools methods (ok tools) =
    All IsTool tools × IsSorted (λ t. t.name) tools × (length tools ≡ count_p is_exposed methods)
BuildsTools methods (err e) = Unit

finish-BuildsTools :
    (methods : List Method) (messages : String → Message) (service : String)
    (r : Result ToolError (List Tool))
    → ReturnsTools messages service (count_p is_exposed methods) r
    → BuildsTools methods (r >>= λ tools. ok (sort_by (λ t. t.name) tools))
unfolding ReturnsTools
finish-BuildsTools methods messages service (ok tools) (a, n) = (
  sort_by-All (λ t. t.name) IsTool tools a,
  sort_by-IsSorted (λ t. t.name) tools,
  length-sort_by tools ∙ n,
)
finish-BuildsTools methods messages service (err e) a = tt

-- If no method is refused, the tools that are built of a service are as many as its exposed methods
-- and stand in the order of their names; each has a name of at most 64 bytes that matches the pattern,
-- is not read-only and destructive at once, and has a portable input schema.
pub build_ir-BuildsTools :
    (messages : String → Message) (service : String) (methods : List Method)
    → BuildsTools methods (build_ir messages service methods)
unfolding build_ir
build_ir-BuildsTools messages service methods =
    finish-BuildsTools methods messages service (tools_of messages service methods []) (
      subst (λ n. ReturnsTools messages service n (tools_of messages service methods []))
        (zero_add (count_p is_exposed methods))
        (tools_of-ReturnsTools messages service methods [] tt))
