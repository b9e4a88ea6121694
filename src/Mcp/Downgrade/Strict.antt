-- ===== src/Mcp/Downgrade/Strict.antt =====
-- mcp/downgrade.go: the strict mode of OpenAI.
use gortexa.Common.{
  String, string_eq, Bool, true, false, Option, none, some, List, [], ◌∷◌, ◌==◌, ◌||◌, not,
  if◌then◌else◌, ◌≡◌, refl, sym, ◌∙◌, arith, inl, inr, Bool-cases, if_elim,
}
use gortexa.Common.Members.{contains, contains-sort_by}
use gortexa.Common.Text.{sort_by, IsSorted, sort_by-IsSorted}
use gortexa.Mcp.Schema.{
  Facts, Schema, node, Props, end, prop, Nested, absent, items, Additional, closed, free, values,
}
use gortexa.Mcp.Schema.Portable.{has_prop}
use gortexa.Mcp.Downgrade.{
  OaSchema, oa_node, OaProps, oa_end, oa_prop, OaNested, oa_absent, oa_items, oa_free, is_object,
  has_oneofs, strict_compatible, strict_additional, strict_nested, strict_props, nullable,
  required_names, may_be_null, to_openai, to_openai_props, to_openai_nested,
}

-- Whether an object of the OpenAI format has a property of a name.
unfoldable pub oa_has : OaProps → String → Bool
oa_has oa_end name = false
oa_has (oa_prop n s ps) name = n == name || oa_has ps name

-- The names that are required, in order, are those of the properties.
abbrev pub RequiresAll : Option (List String) → OaProps → Type 0
RequiresAll none ps = ⊥
RequiresAll (some names) ps =
    IsSorted (λ n. n) names × ((n : String) → contains names n ≡ oa_has ps n)

-- What OpenAI asks of a schema in strict mode: an object is closed and requires each of its
-- properties, what is no object has none, and all that it holds is so too.
unfoldable mutual
  pub IsStrict : OaSchema → Type 0
  IsStrict (oa_node f ps it ad) =
      (if f.kind == "object"
        then (ad ≡ oa_free false) × RequiresAll f.required ps
        else (ps ≡ oa_end))
      × AllStrict ps
      × NestedStrict it

  pub AllStrict : OaProps → Type 0
  AllStrict oa_end = Unit
  AllStrict (oa_prop n s ps) = IsStrict s × AllStrict ps

  pub NestedStrict : OaNested → Type 0
  NestedStrict oa_absent = Unit
  NestedStrict (oa_items s) = IsStrict s

nullable-IsStrict : (s : OaSchema) → IsStrict s → IsStrict (nullable s)
unfolding IsStrict nullable
nullable-IsStrict (oa_node f ps it ad) h = h

contains-required_names :
    (ps : Props) (n : String) → contains (required_names [] ps) n ≡ has_prop ps n
unfolding contains required_names has_prop
contains-required_names end n = refl
contains-required_names (prop m s ps) n = ground (arith, contains-required_names ps n)

oa_has-to_openai_props :
    (f : Facts) (ps : Props) (n : String) → oa_has (to_openai_props f ps) n ≡ has_prop ps n
unfolding oa_has to_openai has_prop
oa_has-to_openai_props f end n = refl
oa_has-to_openai_props f (prop m s ps) n = ground (arith, oa_has-to_openai_props f ps n)

has_oneofs_false : (oneofs : List String) → not (has_oneofs oneofs) ≡ true → oneofs ≡ []
has_oneofs_false [] h = refl
has_oneofs_false (m ∷ ms) h = cc

strict_additional-closed : (ad : Additional) → strict_additional ad ≡ true → ad ≡ closed
unfolding strict_compatible
strict_additional-closed closed h = refl
strict_additional-closed (free b) h = cc
strict_additional-closed (values s) h = cc

RequiresAll-required_names :
    (f : Facts) (ps : Props) (oneofs : List String)
    → oneofs ≡ []
    → RequiresAll (some (sort_by (λ n. n) (required_names oneofs ps))) (to_openai_props f ps)
RequiresAll-required_names f ps oneofs h = rw h (
  sort_by-IsSorted (λ n. n) (required_names [] ps),
  λ n.
      contains-sort_by (required_names [] ps) n
      ∙ contains-required_names ps n
      ∙ sym (oa_has-to_openai_props f ps n),
)

mutual
  unfolding strict_compatible to_openai IsStrict is_object

  schema-IsStrict : (s : Schema) → strict_compatible s ≡ true → IsStrict (to_openai s)
  schema-IsStrict (node f ps it ad) h =
      let no_oneofs : f.oneof_members ≡ [] = has_oneofs_false f.oneof_members (ground (arith, h)) in
      let shut : ad ≡ closed = strict_additional-closed ad (ground (arith, h)) in
      let nested = to_openai_nested-NestedStrict it (ground (arith, h)) in
      let inner = to_openai_props-AllStrict f ps (ground (arith, h)) in
      elim (Bool-cases (f.kind == "object")) [
        | inl object ↦
            rw (object, shut)
              ((refl, RequiresAll-required_names f ps f.oneof_members no_oneofs), inner, nested)
        | inr other ↦ rw other (refl, tt, nested)
      ]

  to_openai_props-AllStrict :
      (f : Facts) (ps : Props) → strict_props ps ≡ true → AllStrict (to_openai_props f ps)
  to_openai_props-AllStrict f end h = tt
  to_openai_props-AllStrict f (prop n s ps) h =
      let own = schema-IsStrict s (ground (arith, h)) in
      (
        if_elim IsStrict (may_be_null f n) (λ wide. nullable-IsStrict (to_openai s) own)
            (λ narrow. own),
        to_openai_props-AllStrict f ps (ground (arith, h)),
      )

  to_openai_nested-NestedStrict :
      (it : Nested) → strict_nested it ≡ true → NestedStrict (to_openai_nested it)
  to_openai_nested-NestedStrict absent h = tt
  to_openai_nested-NestedStrict (items s) h = schema-IsStrict s h

-- A schema that counts as strict becomes one that OpenAI's strict mode takes: at each level an object
-- is closed and requires exactly the names of its properties, in order, and what is no object has no
-- properties.
pub to_openai-IsStrict : (s : Schema) → strict_compatible s ≡ true → IsStrict (to_openai s)
to_openai-IsStrict s h = schema-IsStrict s h
