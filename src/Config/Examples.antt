-- ===== src/Config/Examples.antt =====
-- A configuration that is valid.
use gortexa.Common.{string_eq, false, [], ◌≡◌, refl, ◌==◌}
use gortexa.Common.Text.{codes, codes_equal}
use gortexa.Config.{AuthConfig, secret_errors, validate}
use gortexa.Config.Secure.{HasKeys, validate-HasKeys}

abbrev config : AuthConfig
config = record {
  addr = ":8080";
  jwt_secret = codes "0123456789abcdef0123456789abcdef";
  jwks_url = "";
  issuer = "gortexa";
}

config-valid : validate (λ s. s) config ≡ []
unfolding validate secret_errors codes_equal
config-valid = refl

validate-HasKeys_example :
    ((config.addr == "") ≡ false) × ((config.issuer == "") ≡ false) × HasKeys config
validate-HasKeys_example = validate-HasKeys (λ s. s) config config-valid
