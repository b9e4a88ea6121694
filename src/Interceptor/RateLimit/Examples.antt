-- ===== src/Interceptor/RateLimit/Examples.antt =====
-- interceptor/ratelimit.go at a concrete limiter.
use gortexa.Common.{
  false≢true, none, some, string_eq, ◌==◌, ◌≡◌, if◌then◌else◌, ℕ, Bool, true, List, [], ◌∷◌, ◌-◌,
  ◌≤◌, ◌*◌, ◌⊎◌, refl, ltb, length,
}
use gortexa.Common.Int.{pos}
use gortexa.Common.Dict.{lookup, insert, erase}
use gortexa.Interceptor.RateLimit.{
  RateLimitConfig, new_rate_limiter, Visit, per_shard, allow, allow_in, swept, admit_peer,
  make_room, evict_oldest, oldest_key, oldest_from, shard_for, Addresses, peer_key,
}
use gortexa.Interceptor.RateLimit.Keys.{own_name, peer_key-unforged}
use gortexa.Interceptor.RateLimit.Caps.{Call, wanted, AreAllowed, run, run_caps_entries}

-- A bucket of tokens that does not refill.
abbrev bucket : ℕ → ℕ
bucket now = 1

abbrev take_token : ℕ → ℕ → ℕ × Bool
take_token now tokens = (tokens - 1, ltb 0 tokens)

abbrev cfg : RateLimitConfig
cfg = record { limits = true; ttl = pos 60; max_entries = pos 16 }

-- Two peers, of whom the second takes the place of the first.
abbrev first_seen : Visit ℕ
first_seen = ("10.0.0.1", record { bucket = 0; seen = 1 }) ∷ []

abbrev calls : List (Call ℕ)
calls =
    record { now = 1; key = "10.0.0.1"; sweep_order = []; evict_order = [] }
    ∷ record { now = 2; key = "10.0.0.2"; sweep_order = first_seen; evict_order = first_seen }
    ∷ []

calls-AreAllowed : AreAllowed bucket take_token (λ key. 0) calls (new_rate_limiter cfg)
unfolding new_rate_limiter per_shard allow allow_in swept admit_peer make_room evict_oldest
    oldest_key oldest_from shard_for lookup insert erase
calls-AreAllowed = (
  (record { entries = tt; whole = refl }, record { entries = tt; whole = refl }),
  (
    (record { entries = (refl, tt); whole = refl }, record { entries = (refl, tt); whole = refl }),
    tt,
  ),
)

run_caps_entries_example :
    let n =
      length ((run bucket take_token (λ key. 0) calls (new_rate_limiter cfg)).shards 0).entries in
    (n ≤ 1) ⊎ (16 * n ≤ wanted (pos 16))
run_caps_entries_example =
    run_caps_entries bucket take_token (λ key. 0) cfg calls 0 calls-AreAllowed

-- Addresses that are not parsed, and one port.
abbrev plain_addresses : Addresses
plain_addresses = record {
  Addr = Unit {0};
  parse_addr = λ s. none;
  unmap = λ a. a;
  is_4 = λ a. true;
  to_string = λ a. "";
  masked_64 = λ a. "";
  split_host_port = λ s. if s == "10.0.0.1:55000" then some "10.0.0.1" else none;
}

peer_key-unforged_example :
    peer_key plain_addresses (some ("tcp", "10.0.0.1:55000")) "10.9.9.9"
    ≡ own_name plain_addresses "10.0.0.1:55000" (some "10.0.0.1")
peer_key-unforged_example =
    peer_key-unforged plain_addresses "tcp" "10.0.0.1:55000" "10.9.9.9"
      (λ h. false≢true ((string_eq.decides "tcp" "bufconn").1 h))
