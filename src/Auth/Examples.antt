-- ===== src/Auth/Examples.antt =====
-- The key set at concrete fetches.
use gortexa.Common.{
  ℕ, String, string_eq, true, none, some, List, [], ◌∷◌, ◌+◌, ◌*◌, ◌≤◌, ◌≡◌, refl, arith,
}
use gortexa.Common.Dict.{Dict, insert, erase}
use gortexa.Auth.KeySet.{
  Decoders, Key, ecdsa, Jwk, KeySet, Event, begins, lands, run, find_key, new_jwks,
  jwks_min_refresh_gap, fetch_jwks, parse_jwks, keys_of, keep_keys, keep_key, public_key, ec_key,
  non_empty, check_key,
}
use gortexa.Auth.KeySet.Refresh.{started, started-gap, find_key-run}
use gortexa.Auth.Verifier.{rsa_method, of_keys, key_func}
use gortexa.Auth.Verifier.Confusion.{IsSafeKey, key_func-IsSafeKey}

abbrev coordinate : List ℕ
coordinate =
    1 ∷ 2 ∷ 3 ∷ 4 ∷ 5 ∷ 6 ∷ 7 ∷ 8 ∷ 1 ∷ 2 ∷ 3 ∷ 4 ∷ 5 ∷ 6 ∷ 7 ∷ 8 ∷ 1 ∷ 2 ∷ 3 ∷ 4 ∷ 5 ∷ 6 ∷ 7 ∷ 8
    ∷ 1 ∷ 2 ∷ 3 ∷ 4 ∷ 5 ∷ 6 ∷ 7 ∷ 8 ∷ []

abbrev jwk : Jwk
jwk = record {
  kty = "EC";
  kid = "k1";
  key_use = "sig";
  n = "";
  e = "";
  crv = "P-256";
  x = "x";
  y = "y";
}

abbrev decoders : Decoders
decoders = record {
  base64 = λ s. some coordinate;
  jwks = λ body. some (jwk ∷ []);
  on_curve = λ x y. true;
}

abbrev keys : Dict String Key
keys = ("k1", ecdsa true coordinate coordinate) ∷ []

first_fetch : fetch_jwks decoders (some (200, [])) ≡ some keys
unfolding fetch_jwks parse_jwks keys_of keep_keys keep_key public_key ec_key non_empty check_key
    insert erase
first_fetch = refl

abbrev start : KeySet
start = new_jwks 100 101 keys

-- A burst of tokens with made-up kids during an outage.
abbrev burst : List Event
burst =
    begins 30000000200 "forged"
    ∷ begins 30000000300 "forged2"
    ∷ lands 30000000400 none
    ∷ begins 30000000500 "k1"
    ∷ []

burst-start : start.attempted_at ≤ 40000000000
unfolding new_jwks
burst-start = omega arith

started-gap_example :
    start.attempted_at + jwks_min_refresh_gap * started decoders burst start ≤ 40000000000
started-gap_example =
    started-gap decoders burst start 40000000000
      (omega arith, (omega arith, (tt, (omega arith, tt)))) burst-start

outage : fetch_jwks decoders none ≡ none
unfolding fetch_jwks
outage = refl

find_key-run_example : find_key "k1" (run decoders burst start) ≡ find_key "k1" start
find_key-run_example = find_key-run decoders burst start "k1" (tt, (tt, (outage, (tt, tt))))

key_func-IsSafeKey_example :
    IsSafeKey rsa_method
      (key_func (of_keys (find_key "k1" (run decoders burst (new_jwks 100 101 keys)))) rsa_method)
key_func-IsSafeKey_example =
    key_func-IsSafeKey decoders (some (200, [])) keys 100 101 burst "k1" rsa_method first_fetch
