-- ===== src/Auth/Verifier/Confusion.antt =====
-- auth/auth.go: no token is checked with a key of another kind.
use gortexa.Common.{
  ℕ, String, true, false≢true, refl, ◌≤◌, ◌^◌, arith, leb, Option, none, some, List, ◌≡◌, if_elim,
  subst,
}
use gortexa.Common.Dict.{Dict}
use gortexa.Common.Result.{Result, ok, err}
use gortexa.Apperr.Types.{Err}
use gortexa.Auth.KeySet.{
  Decoders, Key, rsa, ecdsa, other, Event, run, check_key, find_key, fetch_jwks, new_jwks,
}
use gortexa.Auth.KeySet.Usable.{
  AllUsable, IsUsable, AreUsable, fetch_jwks-AreUsable, run-AllUsable, find_key-IsUsable,
}
use gortexa.Auth.Verifier.{
  Method, rsa_method, ecdsa_method, hmac_method, other_method, VerKey, secret_key, public, of_keys,
  fits, key_func,
}

-- A key that may check a signature made by the method: an RSA modulus of 2048 bits or more for RSA, a
-- point of P-256 for ECDSA; never a secret.
abbrev pub IsSafeKey : Method → Result Err VerKey → Type 0
IsSafeKey m (err e) = Unit
IsSafeKey m (ok (secret_key s)) = ⊥
IsSafeKey m (ok (public (rsa n e))) = (2 ^ 2047 ≤ n) × (m ≡ rsa_method)
IsSafeKey m (ok (public (ecdsa p256 x y))) = (p256 ≡ true) × (m ≡ ecdsa_method)
IsSafeKey m (ok (public other)) = ⊥

at_least : (m n : ℕ) → leb m n ≡ true → m ≤ n
at_least m n h = ground arith

fits-IsSafeKey :
    (m : Method) (k : Key) → check_key k ≡ true → fits m k ≡ true → IsSafeKey m (ok (public k))
unfolding check_key fits
fits-IsSafeKey rsa_method (rsa n e) strong same = (at_least (2 ^ 2047) n strong, refl)
fits-IsSafeKey rsa_method (ecdsa p256 x y) strong same = absurd (false≢true same)
fits-IsSafeKey ecdsa_method (rsa n e) strong same = absurd (false≢true same)
fits-IsSafeKey ecdsa_method (ecdsa p256 x y) strong same = (strong, refl)
fits-IsSafeKey hmac_method k strong same = absurd (false≢true same)
fits-IsSafeKey other_method k strong same = absurd (false≢true same)
fits-IsSafeKey rsa_method other strong same = absurd (false≢true same)
fits-IsSafeKey ecdsa_method other strong same = absurd (false≢true same)

of_keys-IsSafeKey :
    (m : Method) (o : Option Key) → IsUsable o → IsSafeKey m (key_func (of_keys o) m)
unfolding key_func
of_keys-IsSafeKey m none h = tt
of_keys-IsSafeKey m (some k) h =
    if_elim (IsSafeKey m) (fits m k) (λ same. fits-IsSafeKey m k h same) (λ differs. tt)

-- A verifier with the key set of an issuer checks a token only with a public key: for an RSA method
-- one of at least 2048 bits, for an ECDSA method one on P-256, and no key for any other method, so
-- never an HMAC; and this however calls and fetches interleave before, and whatever the issuer sends.
pub key_func-IsSafeKey :
    (d : Decoders) (r : Option (ℕ × List ℕ)) (keys : Dict String Key) (attempted fetched : ℕ)
    (es : List Event) (kid : String) (m : Method)
    → fetch_jwks d r ≡ some keys
    → IsSafeKey m (key_func (of_keys (find_key kid (run d es (new_jwks attempted fetched keys)))) m)
unfolding new_jwks
key_func-IsSafeKey d r keys attempted fetched es kid m first =
    let start : AllUsable keys = subst AreUsable first (fetch_jwks-AreUsable d r) in
    let ks = run d es (new_jwks attempted fetched keys) in
    of_keys-IsSafeKey m (find_key kid ks)
      (find_key-IsUsable kid ks (run-AllUsable d es (new_jwks attempted fetched keys) start))
