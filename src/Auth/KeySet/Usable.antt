-- ===== src/Auth/KeySet/Usable.antt =====
-- auth/jwks.go: the keys of a set are usable, whatever its refreshes bring.
use gortexa.Common.{
  ℕ, String, string_eq, true, Option, none, some, List, [], ◌∷◌, ◌==◌, ◌≡◌, refl, arith, if_elim,
  not, ◌&&◌, ltb, length, nat_eq,
}
use gortexa.Common.Dict.{Dict, lookup, insert, erase}
use gortexa.Auth.KeySet.{
  Decoders, Key, Jwk, KeySet, Event, begins, lands, wants_fetch, begin, land, step, run, fetch_jwks,
  parse_jwks, keys_of, keep_keys, keep_key, non_empty, find_key, only_key, public_key, check_key,
  all_usable, max_jwks_bytes,
}

abbrev pub AllUsable : Dict String Key → Type 0
AllUsable keys = all_usable keys ≡ true

abbrev pub IsUsable : Option Key → Type 0
IsUsable none = Unit
IsUsable (some k) = check_key k ≡ true

abbrev pub AreUsable : Option (Dict String Key) → Type 0
AreUsable none = Unit
AreUsable (some keys) = AllUsable keys

erase-AllUsable :
    (kid : String) (keys : Dict String Key) → AllUsable keys → AllUsable (erase kid keys)
unfolding all_usable erase
erase-AllUsable kid [] a = refl
erase-AllUsable kid ((j, k) ∷ keys) a = ground (arith, a, erase-AllUsable kid keys)

keep_key-AllUsable :
    (d : Decoders) (kid : String) (o : Option Key) (keys : Dict String Key)
    → AllUsable keys
    → AllUsable (keep_key d kid o keys)
unfolding keep_key insert all_usable
keep_key-AllUsable d kid none keys a = a
keep_key-AllUsable d kid (some k) keys a =
    if_elim AllUsable (check_key k) (λ fine. ground (arith, fine, erase-AllUsable kid keys a))
      (λ bad. a)

keep_keys-AllUsable :
    (d : Decoders) (js : List Jwk) (keys : Dict String Key)
    → AllUsable keys
    → AllUsable (keep_keys d js keys)
unfolding keep_keys
keep_keys-AllUsable d [] keys a = a
keep_keys-AllUsable d (j ∷ js) keys a =
    if_elim AllUsable (not (j.key_use == "") && not (j.key_use == "sig"))
      (λ skip. keep_keys-AllUsable d js keys a)
      (λ used.
        keep_keys-AllUsable d js (keep_key d j.kid (public_key d j) keys)
          (keep_key-AllUsable d j.kid (public_key d j) keys a))

non_empty-AreUsable :
    (d : Decoders) (keys : Dict String Key) → AllUsable keys → AreUsable (non_empty d keys)
unfolding non_empty
non_empty-AreUsable d [] a = tt
non_empty-AreUsable d (k ∷ keys) a = a

keys_of-AreUsable : (d : Decoders) (o : Option (List Jwk)) → AreUsable (keys_of d o)
unfolding keys_of all_usable
keys_of-AreUsable d none = tt
keys_of-AreUsable d (some js) =
    non_empty-AreUsable d (keep_keys d js []) (keep_keys-AllUsable d js [] refl)

pub fetch_jwks-AreUsable : (d : Decoders) (r : Option (ℕ × List ℕ)) → AreUsable (fetch_jwks d r)
unfolding fetch_jwks parse_jwks
fetch_jwks-AreUsable d none = tt
fetch_jwks-AreUsable d (some (status, body)) =
    if_elim AreUsable (not (status == 200)) (λ bad. tt)
      (λ good.
        if_elim AreUsable (ltb max_jwks_bytes (length body)) (λ large. tt)
          (λ fits. keys_of-AreUsable d (d.jwks body)))

land-AllUsable :
    (now : ℕ) (o : Option (Dict String Key)) (ks : KeySet)
    → AreUsable o
    → AllUsable ks.keys
    → AllUsable (land now o ks).keys
unfolding land
land-AllUsable now none ks o a = a
land-AllUsable now (some keys) ks o a = o

begin-AllUsable :
    (now : ℕ) (kid : String) (ks : KeySet) → AllUsable ks.keys → AllUsable (begin now kid ks).keys
unfolding begin
begin-AllUsable now kid ks a =
    if_elim {A = KeySet} (λ s. AllUsable s.keys) (wants_fetch now kid ks) (λ f. a) (λ n. a)

pub run-AllUsable :
    (d : Decoders) (es : List Event) (ks : KeySet)
    → AllUsable ks.keys
    → AllUsable (run d es ks).keys
unfolding run step
run-AllUsable d [] ks a = a
run-AllUsable d (begins now kid ∷ es) ks a =
    run-AllUsable d es (begin now kid ks) (begin-AllUsable now kid ks a)
run-AllUsable d (lands now r ∷ es) ks a =
    run-AllUsable d es (land now (fetch_jwks d r) ks)
      (land-AllUsable now (fetch_jwks d r) ks (fetch_jwks-AreUsable d r) a)

only_key-IsUsable : (keys : Dict String Key) → AllUsable keys → IsUsable (only_key keys)
unfolding all_usable
only_key-IsUsable [] a = tt
only_key-IsUsable ((kid, k) ∷ []) a = ground (arith, a)
only_key-IsUsable (k ∷ l ∷ keys) a = tt

lookup-IsUsable :
    (kid : String) (keys : Dict String Key) → AllUsable keys → IsUsable (lookup kid keys)
unfolding all_usable lookup
lookup-IsUsable kid [] a = tt
lookup-IsUsable kid ((j, k) ∷ keys) a =
    if_elim IsUsable (j == kid) (λ hit. ground (arith, a))
      (λ miss. lookup-IsUsable kid keys (ground (arith, a)))

-- A key that a set finds is usable when all its keys are.
pub find_key-IsUsable :
    (kid : String) (ks : KeySet) → AllUsable ks.keys → IsUsable (find_key kid ks)
unfolding find_key
find_key-IsUsable kid ks a =
    if_elim IsUsable (kid == "") (λ blank. only_key-IsUsable ks.keys a)
      (λ named. lookup-IsUsable kid ks.keys a)
