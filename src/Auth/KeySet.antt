-- ===== src/Auth/KeySet.antt =====
-- auth/jwks.go: the public keys that verify tokens, and the refresh of them. An instant is a number of
-- nanoseconds. `begin` and `land` are the two critical sections of a call of key, with the fetch between
-- them, so that the calls of a server interleave as a list of events.
pub mod Refresh
pub mod Usable
use gortexa.Common.{
  ℕ, suc, String, string_eq, nat_eq, Bool, true, false, Option, none, some, List, [], ◌∷◌, ◌==◌,
  ◌&&◌, ◌||◌, ◌-◌, ◌^◌, ◌*◌, ◌+◌, not, if◌then◌else◌, ltb, leb, length,
}
use gortexa.Common.Dict.{Dict, lookup, insert}

abbrev pub min_rsa_bits : ℕ
min_rsa_bits = 2048

abbrev pub jwks_refresh_interval : ℕ
jwks_refresh_interval = 15 * 60 * 1000000000

abbrev pub jwks_min_refresh_gap : ℕ
jwks_min_refresh_gap = 30 * 1000000000

abbrev pub max_jwks_bytes : ℕ
max_jwks_bytes = 2 ^ 20

-- crypto.PublicKey: an RSA modulus and exponent, an ECDSA point and whether its curve is P-256, or
-- another type.
pub data Key : Type 0 where
  rsa : ℕ → ℕ → Key
  ecdsa : Bool → List ℕ → List ℕ → Key
  other : Key

-- checkKey. A number has at least 2048 bits when it is 2^2047 or more.
unfoldable pub check_key : Key → Bool
check_key (rsa n e) = leb (2 ^ (min_rsa_bits - 1)) n
check_key (ecdsa p256 x y) = p256
check_key other = false

-- jwk
pub record Jwk : Type 0 where
  pub kty : String
  pub kid : String
  pub key_use : String
  pub n : String
  pub e : String
  pub crv : String
  pub x : String
  pub y : String

-- base64 and encoding/json, and the test of a point by crypto/ecdsa.
pub record Decoders : Type 0 where
  pub base64 : String → Option (List ℕ)
  pub jwks : List ℕ → Option (List Jwk)
  pub on_curve : List ℕ → List ℕ → Bool

-- big.Int.SetBytes
unfoldable pub set_bytes : ℕ → List ℕ → ℕ
set_bytes n [] = n
set_bytes n (b ∷ bs) = set_bytes (n * 256 + b) bs

unfoldable pub positive_int : Option (List ℕ) → Option ℕ
unfolding set_bytes
positive_int none = none
positive_int (some []) = none
positive_int (some (b ∷ bs)) = some (set_bytes 0 (b ∷ bs))

unfoldable pub rsa_key : Option ℕ → Option ℕ → Option Key
rsa_key none e = none
rsa_key (some n) none = none
rsa_key (some n) (some e) = if ltb e 3 || ltb (2 ^ 31 - 1) e then none else some (rsa n e)

module _ (d : Decoders) where
  -- b64Int
  unfoldable pub b64_int : String → Option ℕ
  unfolding positive_int
  b64_int s = positive_int (d.base64 s)

  unfoldable pub ec_key : Option (List ℕ) → Option (List ℕ) → Option Key
  ec_key none y = none
  ec_key (some x) none = none
  ec_key (some x) (some y) =
      if not (length x == 32 && length y == 32)
      then none
      else if d.on_curve x y
      then some (ecdsa true x y)
      else none

  -- publicKey
  unfoldable pub public_key : Jwk → Option Key
  unfolding b64_int rsa_key ec_key
  public_key j =
      if j.kty == "RSA"
      then rsa_key (b64_int j.n) (b64_int j.e)
      else if j.kty == "EC"
      then (if j.crv == "P-256" then ec_key (d.base64 j.x) (d.base64 j.y) else none)
      else none

  unfoldable pub keep_key : String → Option Key → Dict String Key → Dict String Key
  unfolding check_key
  keep_key kid none keys = keys
  keep_key kid (some k) keys = let more = insert kid k keys in if check_key k then more else keys

  -- The loop of parseJWKS.
  unfoldable pub keep_keys : List Jwk → Dict String Key → Dict String Key
  unfolding keep_key public_key
  keep_keys [] keys = keys
  keep_keys (j ∷ js) keys =
      let used = keep_keys js (keep_key j.kid (public_key j) keys) in
      let skipped = keep_keys js keys in
      if not (j.key_use == "") && not (j.key_use == "sig") then skipped else used

  unfoldable pub non_empty : Dict String Key → Option (Dict String Key)
  non_empty [] = none
  non_empty (k ∷ keys) = some (k ∷ keys)

  unfoldable pub keys_of : Option (List Jwk) → Option (Dict String Key)
  unfolding keep_keys non_empty
  keys_of none = none
  keys_of (some js) = non_empty (keep_keys js [])

  -- parseJWKS
  unfoldable pub parse_jwks : List ℕ → Option (Dict String Key)
  unfolding keys_of
  parse_jwks body = keys_of (d.jwks body)

  -- fetchJWKS, on the status and the body of the answer; `none` where the request fails.
  unfoldable pub fetch_jwks : Option (ℕ × List ℕ) → Option (Dict String Key)
  unfolding parse_jwks
  fetch_jwks none = none
  fetch_jwks (some (status, body)) =
      if not (status == 200)
      then none
      else if ltb max_jwks_bytes (length body)
      then none
      else parse_jwks body

unfoldable pub all_usable : Dict String Key → Bool
unfolding check_key
all_usable [] = true
all_usable ((kid, k) ∷ keys) = let rest = all_usable keys in if check_key k then rest else false

-- KeySet; `fetches` is whether it has a fetch, and a static one has none.
pub record KeySet : Type 0 where
  pub fetches : Bool
  pub keys : Dict String Key
  pub fetched_at : ℕ
  pub attempted_at : ℕ

-- NewStaticKeySet; `none` is its error on no key or on one that is not usable.
unfoldable pub new_static_key_set : Dict String Key → Option KeySet
unfolding all_usable
new_static_key_set [] = none
new_static_key_set (k ∷ keys) =
    if all_usable (k ∷ keys)
    then some (record { fetches = false; keys = k ∷ keys; fetched_at = 0; attempted_at = 0 })
    else none

abbrev pub only_key : Dict String Key → Option Key
only_key [] = none
only_key ((kid, k) ∷ []) = some k
only_key (k ∷ l ∷ keys) = none

-- lookup, the method
unfoldable pub find_key : String → KeySet → Option Key
find_key kid ks = if kid == "" then only_key ks.keys else lookup kid ks.keys

holds : Option Key → Bool
holds none = false
holds (some k) = true

-- Whether a call of key fetches.
unfoldable pub wants_fetch : ℕ → String → KeySet → Bool
unfolding find_key holds
wants_fetch now kid ks =
    if not ks.fetches
    then false
    else not (
        (holds (find_key kid ks) && ltb (now - ks.fetched_at) jwks_refresh_interval)
        || ltb (now - ks.attempted_at) jwks_min_refresh_gap)

-- The first critical section of key: the claim of the gap.
unfoldable pub begin : ℕ → String → KeySet → KeySet
unfolding wants_fetch
begin now kid ks = if wants_fetch now kid ks then record ks { attempted_at = now } else ks

-- fetchAndSwap, with what the fetch gave.
unfoldable pub land : ℕ → Option (Dict String Key) → KeySet → KeySet
land now none ks = ks
land now (some keys) ks = record ks { keys = keys; fetched_at = now }

-- key, when no other call comes between its two sections: the key it returns, and the set.
unfoldable pub key : ℕ → ℕ → Option (Dict String Key) → String → KeySet → Option Key × KeySet
unfolding begin land find_key
key now landed fetched kid ks =
    let after = land landed fetched (begin now kid ks) in
    if wants_fetch now kid ks then (find_key kid after, after) else (find_key kid ks, ks)

-- NewJWKS, once its first fetch has succeeded.
unfoldable pub new_jwks : ℕ → ℕ → Dict String Key → KeySet
new_jwks attempted fetched keys = record {
  fetches = true;
  keys = keys;
  fetched_at = fetched;
  attempted_at = attempted;
}

-- A call begins, with its kid, or the fetch of an earlier one ends.
pub data Event : Type 0 where
  begins : ℕ → String → Event
  lands : ℕ → Option (ℕ × List ℕ) → Event

unfoldable pub step : Decoders → Event → KeySet → KeySet
unfolding begin land fetch_jwks
step d (begins now kid) ks = begin now kid ks
step d (lands now response) ks = land now (fetch_jwks d response) ks

unfoldable pub run : Decoders → List Event → KeySet → KeySet
unfolding step
run d [] ks = ks
run d (e ∷ es) ks = run d es (step d e ks)
