-- ===== src/Auth/Verifier.antt =====
-- auth/auth.go and authenticator.go: the key that a token is checked with, and the bearer header. The
-- parsing of a token, with its signature, expiry, issuer and audience, is the library's.
pub mod Confusion
use gortexa.Common.{
  ℕ, String, Bool, true, false, Option, none, some, List, [], ◌∷◌, ◌==◌, nat_eq, ◌&&◌, ◌+◌, ◌||◌,
  not, if◌then◌else◌, ltb, leb, length, take, drop,
}
use gortexa.Common.Result.{Result, ok, err}
use gortexa.Common.Text.{codes}
use gortexa.Apperr.Types.{Err, opaque, new, wrap, cat_unauthenticated}
use gortexa.Auth.KeySet.{Key, rsa, ecdsa, other}

-- jwt.SigningMethod
pub data Method : Type 0 where
  hmac_method rsa_method ecdsa_method other_method : Method

-- What a signature is checked with.
pub data VerKey : Type 0 where
  secret_key : List ℕ → VerKey
  public : Key → VerKey

-- Verifier: a secret, or a key set with what it finds for the kid of a token.
pub data Source : Type 0 where
  of_secret : List ℕ → Source
  of_keys : Option Key → Source

abbrev unexpected_method : Err
unexpected_method = new cat_unauthenticated "unexpected signing method"

abbrev unknown_key : Err
unknown_key = new cat_unauthenticated "unknown signing key"

abbrev mismatch : Err
mismatch = new cat_unauthenticated "signing method does not match key"

abbrev is_hmac : Method → Bool
is_hmac hmac_method = true
is_hmac rsa_method = false
is_hmac ecdsa_method = false
is_hmac other_method = false

-- The type switch on the key.
unfoldable pub fits : Method → Key → Bool
fits rsa_method (rsa n e) = true
fits rsa_method (ecdsa p x y) = false
fits rsa_method other = false
fits ecdsa_method (rsa n e) = false
fits ecdsa_method (ecdsa p x y) = true
fits ecdsa_method other = false
fits hmac_method k = false
fits other_method k = false

-- keyFunc
unfoldable pub key_func : Source → Method → Result Err VerKey
unfolding fits
key_func (of_secret s) m = if is_hmac m then ok (secret_key s) else err unexpected_method
key_func (of_keys none) m = err unknown_key
key_func (of_keys (some k)) m = if fits m k then ok (public k) else err mismatch

abbrev pub min_secret_bytes : ℕ
min_secret_bytes = 32

-- NewVerifier, with its secret
unfoldable pub new_verifier : List ℕ → Option Source
new_verifier secret = if ltb (length secret) min_secret_bytes then none else some (of_secret secret)

-- strings.EqualFold of ASCII texts: a letter in upper case as in lower case.
unfoldable pub fold_code : ℕ → ℕ
fold_code c = if leb 65 c && leb c 90 then c + 32 else c

unfoldable pub equal_fold : List ℕ → List ℕ → Bool
unfolding fold_code
equal_fold [] [] = true
equal_fold [] (y ∷ ys) = false
equal_fold (x ∷ xs) [] = false
equal_fold (x ∷ xs) (y ∷ ys) =
    let rest = equal_fold xs ys in if fold_code x == fold_code y then rest else false

abbrev pub bearer_prefix : List ℕ
bearer_prefix = codes "bearer "

-- BearerToken, on the bytes of the header
unfoldable pub bearer_token : (List ℕ → List ℕ) → List ℕ → Option (List ℕ)
unfolding equal_fold
bearer_token trim_space header =
    if ltb (length bearer_prefix) (length header)
      && equal_fold (take (length bearer_prefix) header) bearer_prefix
    then some (trim_space (drop (length bearer_prefix) header))
    else none

-- What jwt.ParseWithClaims makes of a token.
pub data Parsed (C : Type 0) : Type 0 where
  valid : C → Parsed C
  expired invalid : Parsed C

module _ {C : Type 0} where
  -- Verify
  unfoldable pub verified : Parsed C → Result Err C
  verified (valid c) = ok c
  verified expired =
      err (wrap cat_unauthenticated "invalid or expired token" (opaque "token expired"))
  verified invalid = err (new cat_unauthenticated "invalid or expired token")

  unfoldable pub with_token : (List ℕ → Parsed C) → Option (List ℕ) → Result Err C
  unfolding verified
  with_token parse none = err (new cat_unauthenticated "malformed authorization")
  with_token parse (some token) = verified (parse token)

  -- Authenticate, on the values of the metadata key
  unfoldable pub authenticate :
      (List ℕ → List ℕ) → (List ℕ → Parsed C) → List (List ℕ) → Result Err C
  unfolding with_token bearer_token
  authenticate trim_space parse [] = err (new cat_unauthenticated "missing authorization")
  authenticate trim_space parse (v ∷ vs) = with_token parse (bearer_token trim_space v)
