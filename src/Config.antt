-- ===== src/Config.antt =====
-- config/config.go: the validation of a configuration, and the lists that it reads from a text. A secret
-- is its bytes; strings.TrimSpace is a parameter.
pub mod Secure
mod Examples
use gortexa.Common.{
  ℕ, String, string_eq, Bool, true, false, List, [], ◌∷◌, ◌++◌, ◌==◌, not, if◌then◌else◌, ltb,
  length,
}
use gortexa.Common.Text.{codes, codes_equal}

-- AuthConfig, and the address of ServerConfig, as far as Validate reads them.
pub record AuthConfig : Type 0 where
  pub addr : String
  pub jwt_secret : List ℕ
  pub jwks_url : String
  pub issuer : String

abbrev pub dev_placeholder_secret : List ℕ
dev_placeholder_secret = codes "dev-only-insecure-secret-change-me-please"

-- The switch on the secret.
unfoldable pub secret_errors : AuthConfig → List String
secret_errors c =
    if not (c.jwks_url == "")
    then []
    else if codes_equal c.jwt_secret []
    then "auth.jwt_secret (or auth.jwks_url) is required" ∷ []
    else if codes_equal c.jwt_secret dev_placeholder_secret
    then "auth.jwt_secret is the built-in dev placeholder; set a real secret via GORTEXA_AUTH__JWT_SECRET"
      ∷ []
    else if ltb (length c.jwt_secret) 32
    then "auth.jwt_secret must be at least 32 bytes" ∷ []
    else []

module _ (trim_space : String → String) where
  -- Validate: its errors, none for a valid configuration.
  unfoldable pub validate : AuthConfig → List String
  unfolding secret_errors
  validate c =
      (if c.addr == "" then "server.addr is required" ∷ [] else [])
      ++ (secret_errors c
          ++ (if trim_space c.issuer == "" then "auth.issuer is required" ∷ [] else []))

  -- The hook of stringToTrimmedSlice, on the parts between commas.
  unfoldable pub trimmed_slice : List String → List String
  trimmed_slice [] = []
  trimmed_slice (p ∷ ps) =
      let rest = trimmed_slice ps in if trim_space p == "" then rest else trim_space p ∷ rest
