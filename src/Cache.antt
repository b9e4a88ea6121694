-- ===== src/Cache.antt =====
-- cache/cache.go and cache/memory.go: the process-local cache. A method runs under the cache's
-- lock, so each is one step. A clock reading is an instant in nanoseconds, `none` stands for the
-- zero time.Time, and `order` is the order in which the runtime visits the map.
pub mod Bounds
pub mod Reads
pub mod Eviction
pub mod Refinement
mod Examples
use gortexa.Common.{
  ℕ, String, string_eq, nat_eq, Bool, true, false, Option, none, some, List, [], ◌∷◌, ◌==◌, ◌||◌,
  ◌&&◌, ◌+◌, not, if◌then◌else◌, ltb, leb, length,
}
use gortexa.Common.Dict.{Dict, lookup, insert, erase}
use gortexa.Common.Int.{ℤ, pos, negsuc, is_positive, is_negative, pos_part}
use gortexa.Common.Result.{Result, ok, err}
use gortexa.Apperr.Types.{Err, new, cat_not_found, cat_unavailable, cat_invalid_argument}

abbrev pub err_cache_miss : Err
err_cache_miss = new cat_not_found "cache miss"

abbrev pub err_memory_closed : Err
err_memory_closed = new cat_unavailable "cache: closed"

abbrev pub err_negative_ttl : Err
err_negative_ttl = new cat_invalid_argument "cache: negative ttl"

-- memoryEntry
pub record MemoryEntry : Type 0 where
  pub val : List ℕ
  pub expires_at : Option ℕ

-- memoryCache, less the janitor's channel and wait group.
pub record MemoryCache : Type 0 where
  pub items : Dict String MemoryEntry
  pub max_entries : ℕ
  pub closed : Bool

-- maxEntries
abbrev pub default_max_entries : ℕ
default_max_entries = 100000

unfoldable pub max_entries : ℤ → ℕ
max_entries configured =
    if is_negative configured
    then 0
    else if is_positive configured
    then pos_part configured
    else default_max_entries

-- NewInMemory
unfoldable pub new_in_memory : ℤ → MemoryCache
unfolding max_entries
new_in_memory configured = record {
  items = [];
  max_entries = max_entries configured;
  closed = false;
}

-- !e.expiresAt.IsZero() && now.After(e.expiresAt)
expired_at : Option ℕ → ℕ → Bool
expired_at none now = false
expired_at (some t) now = ltb t now

unfoldable pub expired : MemoryEntry → ℕ → Bool
unfolding expired_at
expired e now = expired_at e.expires_at now

-- The janitor's sweep, at one tick.
unfoldable pub sweep_items :
    ℕ → List (String × MemoryEntry) → Dict String MemoryEntry → Dict String MemoryEntry
unfolding expired
sweep_items now [] items = items
sweep_items now ((k, e) ∷ order) items =
    sweep_items now order (if expired e now then erase k items else items)

unfoldable pub sweep : ℕ → List (String × MemoryEntry) → MemoryCache → MemoryCache
unfolding sweep_items
sweep now order c = record c { items = sweep_items now order c.items }

-- Get
answer : Option MemoryEntry → ℕ → Result Err (List ℕ)
unfolding expired
answer none now = err err_cache_miss
answer (some e) now = if expired e now then err err_cache_miss else ok e.val

unfoldable pub get : ℕ → String → MemoryCache → Result Err (List ℕ)
unfolding answer
get now key c = if c.closed then err err_memory_closed else answer (lookup key c.items) now

-- The loop of evictOne; `visited` counts up to 8.
unfoldable pub victim_from : ℕ → ℕ → String → List (String × MemoryEntry) → String
unfolding expired
victim_from now visited victim [] = victim
victim_from now visited victim ((k, e) ∷ order) =
    let first = if visited == 0 then k else victim in
    let rest = victim_from now (visited + 1) first order in
    if expired e now then k else if visited + 1 == 8 then first else rest

-- evictOne
unfoldable pub evict_one :
    ℕ → List (String × MemoryEntry) → Dict String MemoryEntry → Dict String MemoryEntry
unfolding victim_from
evict_one now order items = erase (victim_from now 0 "" order) items

-- Whether Set has to free a slot.
is_full : String → MemoryCache → Bool
is_full key c = elim (lookup key c.items) [
  | some e ↦ false
  | none ↦ ltb 0 c.max_entries && leb c.max_entries (length c.items)
]

entry : List ℕ → ℤ → ℕ → MemoryEntry
entry val ttl now = record {
  val = val;
  expires_at = if is_positive ttl then some (now + pos_part ttl) else none;
}

-- Set: `now` is the clock for the expiry, `later` the one that evictOne reads.
unfoldable pub set :
    ℕ
    → ℕ
    → List (String × MemoryEntry)
    → String
    → List ℕ
    → ℤ
    → MemoryCache
    → MemoryCache × Option Err
unfolding is_full evict_one entry
set now later order key val ttl c =
    if is_negative ttl
    then (c, some err_negative_ttl)
    else if c.closed
    then (c, some err_memory_closed)
    else (
      record c {
        items =
            insert key (entry val ttl now)
              (if is_full key c then evict_one later order c.items else c.items);
      },
      none,
    )

-- Del
unfoldable pub del : String → MemoryCache → MemoryCache × Option Err
del key c =
    if c.closed then (c, some err_memory_closed) else (record c { items = erase key c.items }, none)

-- Close
unfoldable pub close : MemoryCache → MemoryCache
close c = if c.closed then c else record c { closed = true }
