-- ===== src/Interceptor/RateLimit/Caps.antt =====
-- interceptor/ratelimit.go: the bound on the peers that a shard remembers.
use gortexa.Common.{
  ℕ, zero, suc, String, nat_eq, string_eq, Bool, Option, none, some, List, [], ◌∷◌, ◌+◌, ◌-◌, ◌*◌,
  ◌%◌, ◌^◌, ◌≤◌, ◌<◌, ◌≡◌, ◌⊎◌, ◌==◌, if◌then◌else◌, ltb, leb, length, arith, refl, Bool-cases, inl,
  inr, All, if_elim,
}
use gortexa.Common.Int.{ℤ, pos, negsuc}
use gortexa.Common.Dict.{
  Dict, lookup, erase, length-erase-le, length-erase-lt, length-insert-le, length-insert_present,
}
use gortexa.Interceptor.RateLimit.{
  Entry, Visit, Shard, RateLimiter, RateLimitConfig, new_rate_limiter, per_shard, sweep,
  oldest_from, oldest_key, evict_oldest, make_room, admit_peer, swept, allow_in, allow, shard_for,
  evict_batch,
}

-- The bound that a configuration asks for over all shards, or the default for one that is not
-- positive.
abbrev pub wanted : ℤ → ℕ
wanted (pos zero) = 100000
wanted (pos (suc n)) = suc n
wanted (negsuc n) = 100000

wanted-per_shard : (z : ℤ) (n : ℕ) → n ≤ per_shard z → (n ≤ 1) ⊎ (16 * n ≤ wanted z)
unfolding per_shard
wanted-per_shard (pos zero) n h = ground (arith, h)
wanted-per_shard (pos (suc k)) n h = ground (arith, h)
wanted-per_shard (negsuc k) n h = ground (arith, h)

-- One call of allow: its moment, its peer, and the orders in which its ranges visit the map.
pub record Call (B : Type 0) : Type 0 where
  pub now : ℕ
  pub key : String
  pub sweep_order : Visit B
  pub evict_order : Visit B

module _ {B : Type 0} where
  -- What Go gives of a range over the map: entries of the map, as many as it has.
  pub record IsOrder (m : Dict String (Entry B)) (order : Visit B) : Type 0 where
    pub entries : All (λ p. lookup p.0 m ≡ some p.1) order
    pub whole : length order ≡ length m

  abbrev IsPresent : Dict String (Entry B) → String → Type 0
  IsPresent m k = (e : Entry B) × (lookup k m ≡ some e)

  length-sweep-le :
      (k now ttl : ℕ) (order : Visit B) (m : Dict String (Entry B))
      → length (sweep k now ttl order m) ≤ length m
  unfolding sweep
  length-sweep-le zero now ttl order m = omega arith
  length-sweep-le (suc k) now ttl [] m = omega arith
  length-sweep-le (suc k) now ttl ((key, e) ∷ order) m = ground (
    arith,
    length-sweep-le k now ttl order (if ltb ttl (now - e.seen) then erase key m else m),
    length-erase-le key m,
  )

  oldest_from-IsPresent :
      (n : ℕ) (key : String) (t : ℕ) (order : Visit B) (m : Dict String (Entry B))
      → IsPresent m key
      → All (λ p. lookup p.0 m ≡ some p.1) order
      → IsPresent m (oldest_from n key t order)
  unfolding oldest_from
  oldest_from-IsPresent zero key t order m p a = p
  oldest_from-IsPresent (suc n) key t [] m p a = p
  oldest_from-IsPresent (suc n) key t ((j, f) ∷ order) m p a =
      oldest_from-IsPresent n (if ltb f.seen t then j else key) (if ltb f.seen t then f.seen else t)
        order m (if_elim (IsPresent m) (ltb f.seen t) (λ older. (f, a.0)) (λ newer. p)) a.1

  oldest_key-IsPresent :
      (order : Visit B) (m : Dict String (Entry B))
      → IsOrder m order
      → 1 ≤ length m
      → IsPresent m (oldest_key order)
  unfolding oldest_key
  oldest_key-IsPresent [] m o h = absurd (omega (arith, o.whole, h))
  oldest_key-IsPresent ((key, e) ∷ order) m o h =
      oldest_from-IsPresent 127 key e.seen order m (e, o.entries.0) o.entries.1

  length-evict_oldest :
      (order : Visit B) (m : Dict String (Entry B))
      → IsOrder m order
      → 1 ≤ length m
      → length (evict_oldest order m) < length m
  unfolding evict_oldest
  length-evict_oldest order m o h =
      let (e, found) = oldest_key-IsPresent order m o h in
      length-erase-lt (oldest_key order) m e found

  length-make_room :
      (limit : ℕ) (order : Visit B) (m : Dict String (Entry B))
      → IsOrder m order
      → 1 ≤ limit
      → length m ≤ limit
      → length (make_room limit order m) < limit
  unfolding make_room
  length-make_room limit order m o least fits = elim (Bool-cases (leb limit (length m))) [
    | inl full ↦ rw full (ground (arith, full, length-evict_oldest order m o))
    | inr room ↦ rw room (ground (arith, room))
  ]

  module _ (new_bucket : ℕ → B) (take_token : ℕ → B → B × Bool) where
    admit_peer-cap :
        (limit now : ℕ) (key : String) (order : Visit B) (found : Option (Entry B))
        (m : Dict String (Entry B))
        → lookup key m ≡ found
        → IsOrder m order
        → 1 ≤ limit
        → length m ≤ limit
        → length (admit_peer new_bucket take_token limit now key order found m).0 ≤ limit
    unfolding admit_peer
    admit_peer-cap limit now key order (some e) m h o least fits = omega (
      arith,
      length-insert_present key (record { bucket = (take_token now e.bucket).0; seen = now }) e m h,
      fits,
    )
    admit_peer-cap limit now key order none m h o least fits = omega (
      arith,
      length-make_room limit order m o least fits,
      length-insert-le key (record { bucket = (take_token now (new_bucket now)).0; seen = now })
          (make_room limit order m),
    )

    length-swept-le :
        (l : RateLimiter B) (now : ℕ) (order : Visit B) (sh : Shard B)
        → length (swept new_bucket take_token l now order sh) ≤ length sh.entries
    unfolding swept
    length-swept-le l now order sh =
        if_elim {A = Dict String (Entry B)} (λ m. length m ≤ length sh.entries)
          ((sh.evict_count + 1) % 2 ^ 64 % evict_batch == 0)
          (λ due. length-sweep-le evict_batch now l.ttl order sh.entries) (λ early. omega arith)

    allow_in-cap :
        (l : RateLimiter B) (now : ℕ) (key : String) (sweep_order evict_order : Visit B)
        (sh : Shard B)
        → IsOrder (swept new_bucket take_token l now sweep_order sh) evict_order
        → 1 ≤ l.max_entries_shard
        → length sh.entries ≤ l.max_entries_shard
        → length (allow_in new_bucket take_token l now key sweep_order evict_order sh).0.entries
          ≤ l.max_entries_shard
    unfolding allow_in
    allow_in-cap l now key sweep_order evict_order sh o least fits =
        let m = swept new_bucket take_token l now sweep_order sh in
        admit_peer-cap l.max_entries_shard now key evict_order (lookup key m) m refl o least
          (omega (arith, length-swept-le l now sweep_order sh, fits))

    module _ (hash : String → ℕ) where
      -- The limiter after a list of calls.
      unfoldable pub run : List (Call B) → RateLimiter B → RateLimiter B
      run [] l = l
      run (c ∷ calls) l =
          run calls (allow new_bucket take_token hash c.now c.key c.sweep_order c.evict_order l).0

      -- Whether the orders of a call are orders of the maps that it visits.
      abbrev pub IsAllowed : Call B → RateLimiter B → Type 0
      IsAllowed c l =
          let sh = l.shards (shard_for new_bucket take_token hash c.key) in
          IsOrder sh.entries c.sweep_order
          × IsOrder (swept new_bucket take_token l c.now c.sweep_order sh) c.evict_order

      -- Whether those of each call are, at the state it finds.
      abbrev pub AreAllowed : List (Call B) → RateLimiter B → Type 0
      AreAllowed [] l = Unit
      AreAllowed (c ∷ calls) l =
          IsAllowed c l
          × AreAllowed calls
              (allow new_bucket take_token hash c.now c.key c.sweep_order c.evict_order l).0

      record Inv (limit : ℕ) (l : RateLimiter B) : Type 0 where
        fixed : l.max_entries_shard ≡ limit
        positive : 1 ≤ l.max_entries_shard
        capped : (i : ℕ) → length (l.shards i).entries ≤ l.max_entries_shard

      allow-Inv :
          (limit : ℕ) (c : Call B) (l : RateLimiter B)
          → IsAllowed c l
          → Inv limit l
          → Inv limit (allow new_bucket take_token hash c.now c.key c.sweep_order c.evict_order l).0
      unfolding allow
      allow-Inv limit c l (s, o) inv =
          if_elim {A = RateLimiter B × Bool} (λ p. Inv limit p.0) l.enabled
            (λ on. record {
              fixed = inv.fixed;
              positive = inv.positive;
              capped = λ j. elim (Bool-cases (j == shard_for new_bucket take_token hash c.key)) [
                | inl same ↦ rw same (
                    allow_in-cap l c.now c.key c.sweep_order c.evict_order
                      (l.shards (shard_for new_bucket take_token hash c.key)) o inv.positive
                      (inv.capped (shard_for new_bucket take_token hash c.key)))
                | inr other ↦ rw other (inv.capped j)
              ];
            })
            (λ off. inv)

      run-Inv :
          (limit : ℕ) (calls : List (Call B)) (l : RateLimiter B)
          → AreAllowed calls l
          → Inv limit l
          → Inv limit (run calls l)
      unfolding run
      run-Inv limit [] l a inv = inv
      run-Inv limit (c ∷ calls) l a inv =
          run-Inv limit calls
            (allow new_bucket take_token hash c.now c.key c.sweep_order c.evict_order l).0 a.1
            (allow-Inv limit c l a.0 inv)

      new-Inv : (cfg : RateLimitConfig) → Inv (per_shard cfg.max_entries) (new_rate_limiter cfg)
      unfolding new_rate_limiter per_shard
      new-Inv cfg = record { fixed = refl; positive = ground arith; capped = λ i. omega arith }

      -- Whatever peers call a new limiter, at whatever moments, and in whatever order the runtime
      -- visits its maps: each of the 16 shards remembers at most one peer, or at most a sixteenth of
      -- the configured bound, which is 100000 for one that is not positive.
      pub run_caps_entries :
          (cfg : RateLimitConfig) (calls : List (Call B)) (i : ℕ)
          → AreAllowed calls (new_rate_limiter cfg)
          → let n = length ((run calls (new_rate_limiter cfg)).shards i).entries in
            (n ≤ 1) ⊎ (16 * n ≤ wanted cfg.max_entries)
      run_caps_entries cfg calls i allowed =
          let inv =
            run-Inv (per_shard cfg.max_entries) calls (new_rate_limiter cfg) allowed
              (new-Inv cfg) in
          wanted-per_shard cfg.max_entries
            (length ((run calls (new_rate_limiter cfg)).shards i).entries)
            (omega (arith, inv.fixed, inv.capped i))
