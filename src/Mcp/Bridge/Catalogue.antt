-- ===== src/Mcp/Bridge/Catalogue.antt =====
-- mcp/bridge.go: the catalogue of tools that a bridge serves.
use gortexa.Common.{
  String, string_eq, false, Option, none, some, List, [], ◌∷◌, ◌++◌, ◌==◌, ◌≡◌, refl, All, map, inl,
  inr, Bool-cases, Option-cases, if_elim, subst, ap, ◌∙◌, beq_refl,
}
use text.Mathlib.TextEquality.{eq_iff}
use gortexa.Common.Dict.{Dict, lookup, insert, lookup-insert}
use gortexa.Common.Members.{contains, IsDistinct, snoc-IsDistinct, sort_by-IsDistinct}
use gortexa.Common.Result.{Result, ok, err, ◌>>=◌, Result-cases}
use gortexa.Common.Text.{sort_by, IsSorted, sort_by-IsSorted, sort_by-All}
use gortexa.Apperr.Registry.{Registry}
use gortexa.Mcp.Schema.{Message}
use gortexa.Mcp.Downgrade.{downgrade_mcp}
use gortexa.Mcp.Tools.{Tool, build_ir}
use gortexa.Mcp.Bridge.Call.{Bridge}
use gortexa.Mcp.Bridge.Build.{
  BridgeError, Service, Collected, add_tools, or_tool_error, listed, bridge_of, collect_tools,
  new_bridge,
}

-- A name under which a tool of that name is found.
abbrev IsFound : String → Option Tool → Type 0
IsFound name none = ⊥
IsFound name (some t) = t.name ≡ name

abbrev Acc : Collected → Type 0
Acc (tools, order) = All (λ n. IsFound n (lookup n tools)) order × IsDistinct order

missing-contains :
    (tools : Dict String Tool) (order : List String) (name : String)
    → All (λ n. IsFound n (lookup n tools)) order
    → lookup name tools ≡ none
    → contains order name ≡ false
unfolding contains
missing-contains tools [] name a h = refl
missing-contains tools (n ∷ order) name a h = elim (Bool-cases (n == name)) [
  | inl same ↦
      absurd (subst (IsFound n) (ap (λ m. lookup m tools) ((eq_iff n name).0 same) ∙ h) a.0)
  | inr other ↦ rw other (missing-contains tools order name a.1 h)
]

insert-All :
    (t : Tool) (tools : Dict String Tool) (order : List String)
    → All (λ n. IsFound n (lookup n tools)) order
    → All (λ n. IsFound n (lookup n (insert t.name t tools))) order
insert-All t tools [] a = tt
insert-All t tools (n ∷ order) a = (
  rw (lookup-insert t.name n t tools)
      (if_elim (IsFound n) (t.name == n) (λ same. (eq_iff t.name n).0 same) (λ other. a.0)),
  insert-All t tools order a.1,
)

snoc-All {κ} :
    (P : String → Type κ) (order : List String) (name : String)
    → All P order
    → P name
    → All P (order ++ name ∷ [])
snoc-All P [] name a h = (h, tt)
snoc-All P (n ∷ order) name a h = (a.0, snoc-All P order name a.1 h)

abbrev ReturnsAcc : Result BridgeError Collected → Type 0
ReturnsAcc (ok acc) = Acc acc
ReturnsAcc (err e) = Unit

insert-Acc :
    (t : Tool) (tools : Dict String Tool) (order : List String)
    → lookup t.name tools ≡ none
    → Acc (tools, order)
    → Acc (insert t.name t tools, order ++ t.name ∷ [])
insert-Acc t tools order missing (a, d) =
    let own : IsFound t.name (lookup t.name (insert t.name t tools)) =
      rw (lookup-insert t.name t.name t tools, beq_refl t.name) refl in
    (
      snoc-All (λ n. IsFound n (lookup n (insert t.name t tools))) order t.name
          (insert-All t tools order a) own,
      snoc-IsDistinct order t.name (missing-contains tools order t.name a missing) d,
    )

add_tools-Acc : (ts : List Tool) (acc : Collected) → Acc acc → ReturnsAcc (add_tools ts acc)
unfolding add_tools
add_tools-Acc [] acc a = a
add_tools-Acc (t ∷ ts) (tools, order) a = elim (Option-cases (lookup t.name tools)) [
  | inl missing ↦ rw missing (
      add_tools-Acc ts (insert t.name t tools, order ++ t.name ∷ [])
        (insert-Acc t tools order missing a))
  | inr (u, taken) ↦ rw taken tt
]

collect_tools-Acc :
    (messages : String → Message) (ss : List Service) (acc : Collected)
    → Acc acc
    → ReturnsAcc (collect_tools messages ss acc)
unfolding collect_tools
collect_tools-Acc messages [] acc a = a
collect_tools-Acc messages (s ∷ ss) acc a =
    elim (Result-cases (or_tool_error (build_ir messages s.name s.methods))) [
      | inr (e, failed) ↦ rw failed tt
      | inl (ts, built) ↦ elim (Result-cases (add_tools ts acc)) [
        | inr (e, failed) ↦ rw (built, failed) tt
        | inl (more, added) ↦
            rw (built, added)
              (collect_tools-Acc messages ss more (subst ReturnsAcc added (add_tools-Acc ts acc a)))
      ]
    ]

map-listed :
    (tools : Dict String Tool) (order : List String)
    → All (λ n. IsFound n (lookup n tools)) order
    → map (λ t. t.name) (listed tools order) ≡ order
unfolding listed downgrade_mcp
map-listed tools [] a = refl
map-listed tools (n ∷ order) a = elim (Option-cases (lookup n tools)) [
  | inl missing ↦ absurd (subst (IsFound n) missing a.0)
  | inr (t, found) ↦
      let same : t.name ≡ n = subst (IsFound n) found a.0 in
      rw found (
        ap (λ m. m ∷ map (λ u. u.name) (listed tools order)) same
        ∙ ap (λ ms. n ∷ ms) (map-listed tools order a.1))
]

-- What a bridge serves: each name once, in order, with the tool of that name, and no other tool.
abbrev pub IsCatalogue : Result BridgeError Bridge → Type 0
IsCatalogue (err e) = Unit
IsCatalogue (ok b) =
    IsSorted (λ n. n) b.order
    × IsDistinct b.order
    × (map (λ t. t.name) b.mcp_tools ≡ b.order)
    × All (λ n. IsFound n (lookup n b.tools)) b.order

bridge_of-IsCatalogue :
    (registry : Registry) (r : Result BridgeError Collected)
    → ReturnsAcc r
    → IsCatalogue (r >>= λ acc. ok (bridge_of registry acc))
unfolding bridge_of
bridge_of-IsCatalogue registry (err e) a = tt
bridge_of-IsCatalogue registry (ok (tools, order)) (a, d) =
    let found = sort_by-All (λ n. n) (λ n. IsFound n (lookup n tools)) order a in
    (
      sort_by-IsSorted (λ n. n) order,
      sort_by-IsDistinct order d,
      map-listed tools (sort_by (λ n. n) order) found,
      found,
    )

-- If NewBridge returns a bridge, it lists its tools in the order of their names, each name once, and
-- each tool that it lists is found under its name when it is called.
pub new_bridge-IsCatalogue :
    (messages : String → Message) (services : List Service) (registry : Registry)
    → IsCatalogue (new_bridge messages services registry)
unfolding new_bridge
new_bridge-IsCatalogue messages services registry =
    bridge_of-IsCatalogue registry (collect_tools messages services ([], []))
      (collect_tools-Acc messages services ([], []) (tt, tt))
