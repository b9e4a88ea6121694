-- ===== src/Config/Secure.antt =====
-- config/config.go: what a valid configuration gives the verifier of tokens.
use gortexa.Common.{
  String, string_eq, Bool, true, false, some, List, [], ◌∷◌, ◌++◌, ◌==◌, ◌≡◌, ◌⊎◌, refl, not,
  if◌then◌else◌, ltb, length, inl, inr, Bool-cases,
}
use gortexa.Common.Text.{codes_equal}
use gortexa.Auth.Verifier.{of_secret, new_verifier}
use gortexa.Config.{AuthConfig, dev_placeholder_secret, secret_errors, validate}

append-empty : (xs ys : List String) → xs ++ ys ≡ [] → (xs ≡ []) × (ys ≡ [])
append-empty [] ys h = (refl, h)
append-empty (x ∷ xs) ys h = cc

no_error : (b : Bool) (e : String) → (if b then e ∷ [] else []) ≡ [] → b ≡ false
no_error true e h = cc
no_error false e h = refl

no_error_then :
    (b : Bool) (e : String) (rest : List String)
    → (if b then e ∷ [] else rest) ≡ []
    → (b ≡ false) × (rest ≡ [])
no_error_then true e rest h = cc
no_error_then false e rest h = (refl, h)

passed_over :
    (b : Bool) (rest : List String) → b ≡ true → (if not b then [] else rest) ≡ [] → rest ≡ []
passed_over true rest k h = h
passed_over false rest k h = cc

-- The source of keys: a key set, or a secret that is no placeholder and that a verifier takes.
abbrev pub HasKeys : AuthConfig → Type 0
HasKeys c =
    ((c.jwks_url == "") ≡ false)
    ⊎ ((codes_equal c.jwt_secret dev_placeholder_secret ≡ false)
        × (new_verifier c.jwt_secret ≡ some (of_secret c.jwt_secret)))

secret_errors-HasKeys : (c : AuthConfig) → secret_errors c ≡ [] → HasKeys c
unfolding secret_errors new_verifier
secret_errors-HasKeys c h = elim (Bool-cases (c.jwks_url == "")) [
  | inr url ↦ inl url
  | inl no_url ↦
      let (given, rest) =
        no_error_then (codes_equal c.jwt_secret []) _ _
          (passed_over (c.jwks_url == "") _ no_url h) in
      let (own, rest') = no_error_then (codes_equal c.jwt_secret dev_placeholder_secret) _ _ rest in
      let long = no_error (ltb (length c.jwt_secret) 32) _ rest' in inr (own, rw long refl)
]

-- A configuration without errors has an address, an issuer that is not blank, and a key set or a secret
-- that is not the placeholder and with which NewVerifier succeeds.
pub validate-HasKeys :
    (trim_space : String → String) (c : AuthConfig)
    → validate trim_space c ≡ []
    → ((c.addr == "") ≡ false) × ((trim_space c.issuer == "") ≡ false) × HasKeys c
unfolding validate
validate-HasKeys trim_space c h =
    let (addr, rest) =
      append-empty (if c.addr == "" then "server.addr is required" ∷ [] else [])
        (secret_errors c
          ++ (if trim_space c.issuer == "" then "auth.issuer is required" ∷ [] else []))
        h in
    let (secret, issuer) =
      append-empty (secret_errors c)
        (if trim_space c.issuer == "" then "auth.issuer is required" ∷ [] else []) rest in
    (
      no_error (c.addr == "") _ addr,
      no_error (trim_space c.issuer == "") _ issuer,
      secret_errors-HasKeys c secret,
    )
