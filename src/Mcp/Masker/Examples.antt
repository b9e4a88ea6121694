-- ===== src/Mcp/Masker/Examples.antt =====
-- Masking at a concrete value.
use gortexa.Common.{String, string_eq, Option, some, [], ◌∷◌, ◌++◌, ◌≡◌, ◌≢◌, ◌⊎◌, false≢true}
use text.Mathlib.TextEquality.{eq_iff}
use gortexa.Mcp.Masker.{
  Json, string, object, Fields, end, field, unparseable, default_mask_fields, is_secret, mask_set,
  mask_secrets,
}
use gortexa.Mcp.Masker.Redaction.{
  IsClean, IsFree, IsNamed, mask_secrets-IsClean, is_secret_of_IsNamed,
}

-- A decoder and an encoder that know one text, and a lower case that changes nothing.
abbrev same : String → String
same s = s

abbrev login : Json
login = object (field "api_key" (string "hunter2") (field "user" (string "ada") end))

abbrev user : Fields
user = field "user" (string "ada") end

abbrev decode_login : String → Option Json
decode_login raw = some login

abbrev decode_user : String → Option Json
decode_user raw = some (object user)

abbrev encode_any : Json → Option String
encode_any v = some "{}"

raw-ne-blank : ◌≢◌ {A = String} "{..}" ""
raw-ne-blank e = false≢true ((eq_iff "{..}" "").1 e)

mask_secrets-IsClean_example :
    let out = mask_secrets same decode_login encode_any "{..}" ("pin" ∷ []) in
    (out ≡ unparseable)
    ⊎ ((w : Json) × (encode_any w ≡ some out)
        × IsClean (IsNamed same (default_mask_fields ++ "pin" ∷ [])) w)
mask_secrets-IsClean_example =
    mask_secrets-IsClean same decode_login encode_any "{..}" ("pin" ∷ []) raw-ne-blank

user-IsFree : IsFree (IsNamed same (default_mask_fields ++ [])) (object user)
unfolding IsFree is_secret mask_set
user-IsFree = (
  λ named. false≢true (is_secret_of_IsNamed same (default_mask_fields ++ []) "user" named),
  tt,
  tt,
)
