-- ===== src/Interceptor/RateLimit.antt =====
-- interceptor/ratelimit.go: the per-peer token buckets, in shards. The hash of xxhash, the bucket of
-- golang.org/x/time/rate and the addresses of net/netip are parameters. A moment is a ℕ, in
-- nanoseconds.
pub mod Caps
pub mod Keys
mod Examples
use gortexa.Common.{
  ℕ, zero, suc, String, nat_eq, string_eq, Bool, true, false, Option, none, some, List, [], ◌∷◌,
  ◌+◌, ◌-◌, ◌^◌, ◌/◌, ◌%◌, ◌==◌, if◌then◌else◌, ltb, leb, length,
}
use gortexa.Common.Int.{ℤ, is_positive, pos_part}
use gortexa.Common.Dict.{Dict, lookup, insert, erase}
use gortexa.Apperr.Types.{Err, new, cat_resource_exhausted}
use gortexa.Interceptor.Run.{Run, returned}

abbrev pub evict_batch : ℕ
evict_batch = 128

abbrev pub shard_count : ℕ
shard_count = 16

-- rlEntry; `B` is a rate.Limiter.
pub record Entry (B : Type 0) : Type 0 where
  pub bucket : B
  pub seen : ℕ

-- rlShard
pub record Shard (B : Type 0) : Type 0 where
  pub entries : Dict String (Entry B)
  pub evict_count : ℕ

-- RateLimiter; `enabled` is rps > 0.
pub record RateLimiter (B : Type 0) : Type 0 where
  pub enabled : Bool
  pub ttl : ℕ
  pub max_entries_shard : ℕ
  pub shards : ℕ → Shard B

-- RateLimitConfig, less RPS and Burst, which only the buckets read.
pub record RateLimitConfig : Type 0 where
  pub limits : Bool
  pub ttl : ℤ
  pub max_entries : ℤ

unfoldable pub per_shard : ℤ → ℕ
per_shard max_entries =
    let share = (if is_positive max_entries then pos_part max_entries else 100000) / shard_count in
    if ltb share 1 then 1 else share

-- NewRateLimiter
unfoldable pub new_rate_limiter : {B : Type 0} → RateLimitConfig → RateLimiter B
unfolding per_shard
new_rate_limiter cfg = record {
  enabled = cfg.limits;
  ttl = if is_positive cfg.ttl then pos_part cfg.ttl else 600000000000;
  max_entries_shard = per_shard cfg.max_entries;
  shards = λ i. record { entries = []; evict_count = 0 };
}

-- What the runtime gives of a range over a map: its entries, in an order of its own.
abbrev pub Visit : Type 0 → Type 0
Visit B = List (String × Entry B)

-- The bounded sweep: the expired among the first `k` entries of the visit go from the map.
unfoldable pub sweep :
    {B : Type 0} → ℕ → ℕ → ℕ → Visit B → Dict String (Entry B) → Dict String (Entry B)
sweep zero now ttl order m = m
sweep (suc k) now ttl [] m = m
sweep (suc k) now ttl ((key, e) ∷ order) m =
    sweep k now ttl order (if ltb ttl (now - e.seen) then erase key m else m)

-- The least recently seen of a sample: the rest of the loop, from its first entry on.
unfoldable pub oldest_from : {B : Type 0} → ℕ → String → ℕ → Visit B → String
oldest_from zero key_so_far oldest order = key_so_far
oldest_from (suc k) key_so_far oldest [] = key_so_far
oldest_from (suc k) key_so_far oldest ((key, e) ∷ order) =
    oldest_from k (if ltb e.seen oldest then key else key_so_far)
      (if ltb e.seen oldest then e.seen else oldest) order

unfoldable pub oldest_key : {B : Type 0} → Visit B → String
unfolding oldest_from
oldest_key [] = ""
oldest_key ((key, e) ∷ order) = oldest_from 127 key e.seen order

unfoldable pub evict_oldest : {B : Type 0} → Visit B → Dict String (Entry B) → Dict String (Entry B)
unfolding oldest_key
evict_oldest order m = erase (oldest_key order) m

-- Makes room for a new peer in a shard that is full.
unfoldable pub make_room :
    {B : Type 0} → ℕ → Visit B → Dict String (Entry B) → Dict String (Entry B)
make_room limit order m = if leb limit (length m) then evict_oldest order m else m

module _ {B : Type 0} (new_bucket : ℕ → B) (take_token : ℕ → B → B × Bool) where
  -- The bucket of a key, of a peer that is there or of a new one, and the answer of its Allow.
  unfoldable pub admit_peer :
      ℕ
      → ℕ
      → String
      → Visit B
      → Option (Entry B)
      → Dict String (Entry B)
      → Dict String (Entry B) × Bool
  unfolding make_room
  admit_peer limit now key order (some e) m =
      let (bucket, ok) = take_token now e.bucket in
      (insert key (record { bucket = bucket; seen = now }) m, ok)
  admit_peer limit now key order none m =
      let (bucket, ok) = take_token now (new_bucket now) in
      (insert key (record { bucket = bucket; seen = now }) (make_room limit order m), ok)

  -- The map of a shard past the sweep, which is due once in `evict_batch` calls.
  unfoldable pub swept : RateLimiter B → ℕ → Visit B → Shard B → Dict String (Entry B)
  swept l now order sh =
      let count = (sh.evict_count + 1) % 2 ^ 64 in
      if count % evict_batch == 0 then sweep evict_batch now l.ttl order sh.entries else sh.entries

  -- allow, on the shard of the key: with the orders in which its two ranges visit the map.
  unfoldable pub allow_in :
      RateLimiter B → ℕ → String → Visit B → Visit B → Shard B → Shard B × Bool
  unfolding swept admit_peer
  allow_in l now key sweep_order evict_order sh =
      let m = swept l now sweep_order sh in
      let (entries, ok) = admit_peer l.max_entries_shard now key evict_order (lookup key m) m in
      (record { entries = entries; evict_count = (sh.evict_count + 1) % 2 ^ 64 }, ok)

  module _ (hash : String → ℕ) where
    -- shardFor
    unfoldable pub shard_for : String → ℕ
    shard_for key = hash key % shard_count

    -- allow, for the peer's key
    unfoldable pub allow : ℕ → String → Visit B → Visit B → RateLimiter B → RateLimiter B × Bool
    unfolding shard_for allow_in
    allow now key sweep_order evict_order l =
        let i = shard_for key in
        let (sh, ok) = allow_in l now key sweep_order evict_order (l.shards i) in
        if l.enabled
        then (record l { shards = λ j. if j == i then sh else l.shards j }, ok)
        else (l, true)

    answer : {R : Type 0} → RateLimiter B × Bool → Run R → RateLimiter B × Run R
    answer (l, true) result = (l, result)
    answer (l, false) result =
        (l, returned none (some (new cat_resource_exhausted "rate limit exceeded")))

    -- Unary
    unfoldable pub unary :
        {R : Type 0}
        → ℕ
        → String
        → Visit B
        → Visit B
        → Run R
        → RateLimiter B
        → RateLimiter B × Run R
    unfolding answer
    unary now key sweep_order evict_order result l =
        answer (allow now key sweep_order evict_order l) result

    -- Stream
    unfoldable pub stream :
        ℕ
        → String
        → Visit B
        → Visit B
        → Run (Unit {0})
        → RateLimiter B
        → RateLimiter B × Run (Unit {0})
    unfolding unary
    stream now key sweep_order evict_order result l = unary now key sweep_order evict_order result l

-- What the key of a peer is made of: netip.ParseAddr and Addr's methods, and net.SplitHostPort.
pub record Addresses : Type 1 where
  pub Addr : Type 0
  pub parse_addr : String → Option Addr
  pub unmap : Addr → Addr
  pub is_4 : Addr → Bool
  pub to_string : Addr → String
  pub masked_64 : Addr → String  -- PrefixFrom(a.WithZone(""), 64).Masked().String()
  pub split_host_port : String → Option String

module _ (net : Addresses) where
  aggregate : String → Option net.Addr → String
  aggregate host none = host
  aggregate host (some a) =
      let b = net.unmap a in if net.is_4 b then net.to_string b else net.masked_64 b

  -- ipKey
  unfoldable pub ip_key : String → String
  unfolding aggregate
  ip_key host = aggregate host (net.parse_addr host)

  host_of : String → Option String → String
  host_of addr none = addr
  host_of addr (some host) = host

  -- peerKey: the peer's network and address, `none` where there is no peer, and the client address
  -- that peerIP finds in the metadata.
  unfoldable pub peer_key : Option (String × String) → String → String
  unfolding host_of
  peer_key none forwarded = "unknown"
  peer_key (some (network, addr)) forwarded =
      let direct = ip_key (host_of addr (net.split_host_port addr)) in
      if network == "bufconn"
      then (if forwarded == "" then direct else ip_key forwarded)
      else direct
