-- ===== src/Auth/KeySet/Refresh.antt =====
-- auth/jwks.go: how often the key set is fetched, and what a failed fetch changes.
use gortexa.Common.{
  ℕ, String, true, Option, none, some, List, [], ◌∷◌, ◌+◌, ◌*◌, ◌≤◌, ◌≡◌, refl, arith, All,
  if◌then◌else◌, inl, inr, Bool-cases, if_elim, ◌∙◌, ap,
}
use gortexa.Auth.KeySet.{
  Decoders, Key, KeySet, Event, begins, lands, wants_fetch, begin, land, step, run, fetch_jwks,
  find_key, jwks_min_refresh_gap,
}

-- The fetches that start.
abbrev pub started : Decoders → List Event → KeySet → ℕ
started d [] ks = 0
started d (begins now kid ∷ es) ks =
    (if wants_fetch now kid ks then 1 else 0) + started d es (begin now kid ks)
started d (lands now r ∷ es) ks = started d es (land now (fetch_jwks d r) ks)

-- No call begins later than an instant.
abbrev pub Until : ℕ → Event → Type 0
Until end (begins now kid) = now ≤ end
Until end (lands now r) = Unit

wants_fetch-gap :
    (now : ℕ) (kid : String) (ks : KeySet)
    → wants_fetch now kid ks ≡ true
    → ks.attempted_at + jwks_min_refresh_gap ≤ now
unfolding wants_fetch
wants_fetch-gap now kid ks h = ground (arith, h)

attempted_at-land :
    (d : Decoders) (now : ℕ) (o : Option (List (String × Key))) (ks : KeySet)
    → (land now o ks).attempted_at ≡ ks.attempted_at
unfolding land
attempted_at-land d now none ks = refl
attempted_at-land d now (some keys) ks = refl

-- However many tokens name unknown keys, and whatever the fetches give: from one attempt on, each fetch
-- that starts takes a gap of 30 seconds of the time that passes.
pub started-gap :
    (d : Decoders) (es : List Event) (ks : KeySet) (end : ℕ)
    → All (Until end) es
    → ks.attempted_at ≤ end
    → ks.attempted_at + jwks_min_refresh_gap * started d es ks ≤ end
unfolding begin
started-gap d [] ks end a le = omega (arith, le)
started-gap d (begins now kid ∷ es) ks end a le = elim (Bool-cases (wants_fetch now kid ks)) [
  | inl fetch ↦
      rw (fetch, begin)
        (omega (
          arith,
          wants_fetch-gap now kid ks fetch,
          started-gap d es (record ks { attempted_at = now }) end a.1 a.0,
        ))
  | inr serve ↦ rw (serve, begin) (omega (arith, started-gap d es ks end a.1 le))
]
started-gap d (lands now r ∷ es) ks end a le =
    let same = attempted_at-land d now (fetch_jwks d r) ks in
    let rest = started-gap d es (land now (fetch_jwks d r) ks) end a.1 (omega (arith, same, le)) in
    omega (arith, same, rest)

-- Every fetch that ends has failed.
abbrev pub HasFailed : Decoders → Event → Type 0
HasFailed d (begins now kid) = Unit
HasFailed d (lands now r) = fetch_jwks d r ≡ none

begin-keys : (now : ℕ) (kid : String) (ks : KeySet) → (begin now kid ks).keys ≡ ks.keys
unfolding begin
begin-keys now kid ks =
    if_elim {A = KeySet} (λ s. s.keys ≡ ks.keys) (wants_fetch now kid ks) (λ f. refl) (λ n. refl)

land-failed :
    (now : ℕ) (o : Option (List (String × Key))) (ks : KeySet) → o ≡ none → land now o ks ≡ ks
unfolding land
land-failed now none ks h = refl
land-failed now (some keys) ks h = cc

run-keys :
    (d : Decoders) (es : List Event) (ks : KeySet)
    → All (HasFailed d) es
    → (run d es ks).keys ≡ ks.keys
unfolding run step
run-keys d [] ks a = refl
run-keys d (begins now kid ∷ es) ks a = run-keys d es (begin now kid ks) a.1 ∙ begin-keys now kid ks
run-keys d (lands now r ∷ es) ks a =
    ap (λ s. (run d es s).keys) (land-failed now (fetch_jwks d r) ks a.0) ∙ run-keys d es ks a.1

-- While the issuer is down, every key that was known stays known, and no other.
pub find_key-run :
    (d : Decoders) (es : List Event) (ks : KeySet) (kid : String)
    → All (HasFailed d) es
    → find_key kid (run d es ks) ≡ find_key kid ks
unfolding find_key
find_key-run d es ks kid a = rw (run-keys d es ks a) refl
