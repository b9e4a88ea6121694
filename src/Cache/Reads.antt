-- ===== src/Cache/Reads.antt =====
-- cache/memory.go: what Get returns after the other operations.
use gortexa.Common.{
  ℕ, String, string_eq, nat_eq, true, false, none, some, List, [], ◌∷◌, ◌==◌, ◌&&◌, ◌+◌, ◌≤◌, ◌<◌,
  ◌≡◌, ◌≢◌, ◌⊎◌, inl, inr, if◌then◌else◌, ltb, length, arith, refl, Bool-cases, beq_refl, All, ◌∙◌,
  not, ◌||◌,
}
use text.Mathlib.TextEquality.{eq_iff}
use gortexa.Common.Int.{ℤ, pos, is_negative}
use gortexa.Common.Result.{ok, err}
use gortexa.Common.Dict.{Dict, lookup, erase, lookup-insert, lookup-erase}
use gortexa.Cache.{
  MemoryEntry, MemoryCache, expired, sweep, sweep_items, get, set, del, close, is_full, entry,
  evict_one, answer, err_cache_miss, err_memory_closed, err_negative_ttl,
}
use gortexa.Cache.Eviction.{IsOrder, evict_one-victim}

-- Set, then Get of the same key: until its time is up the value, and a miss from the instant after
-- it; with a ttl of 0 the value always. The cache is open and the ttl is not negative.
pub get-set_self :
    (now later at : ℕ) (order : List (String × MemoryEntry)) (key : String) (val : List ℕ) (ttl : ℕ)
    (c : MemoryCache)
    → c.closed ≡ false
    → get at key (set now later order key val (pos ttl) c).0
      ≡ (if ltb 0 ttl && ltb (now + ttl) at then err err_cache_miss else ok val)
unfolding get set
get-set_self now later at order key val ttl c open_cache = ground (
  arith,
  beq_refl key,
  lookup-insert key key (entry val (pos ttl) now)
      (if is_full key c then evict_one later order c.items else c.items),
)

-- Whether an entry that a lookup finds answers Get at a time.
abbrev Agree : ℕ → Dict String MemoryEntry → Dict String MemoryEntry → String → Type 0
Agree at items items' key = answer (lookup key items) at ≡ answer (lookup key items') at

is_full-eq :
    (key : String) (c : MemoryCache)
    → is_full key c ≡ true
    → (lookup key c.items ≡ none) × (0 < c.max_entries) × (c.max_entries ≤ length c.items)
unfolding is_full
is_full-eq key c h = ground arith

-- Set of one key, then Get of another: what Get returned before, unless the cache was full of other
-- keys, and then perhaps a miss, for the one entry that had to go.
pub get-set_other :
    (now later at : ℕ) (order : List (String × MemoryEntry)) (key other : String) (val : List ℕ)
    (ttl : ℤ) (c : MemoryCache)
    → key ≢ other
    → IsOrder c.items order
    → let c' = (set now later order key val ttl c).0 in
      (get at other c' ≡ get at other c)
      ⊎ ((get at other c' ≡ err err_cache_miss)
          × (lookup key c.items ≡ none)
          × (0 < c.max_entries)
          × (c.max_entries ≤ length c.items))
unfolding get set is_full
get-set_other now later at order key other val ttl c differ o = elim (Bool-cases (is_full key c)) [
  | inr room ↦
      inl (ground (arith, eq_iff key other, lookup-insert key other (entry val ttl now) c.items))
  | inl full ↦
      let (absent, cap, over) = is_full-eq key c full in
      let (v, e, found, others, less, choice) =
        evict_one-victim later order c.items o (omega (arith, cap, over)) in
      elim (Bool-cases (is_negative ttl || c.closed || not (v == other))) [
        | inl spared ↦ inl (
            ground (
              arith,
              eq_iff key other,
              others other,
              lookup-insert key other (entry val ttl now) (evict_one later order c.items),
            ))
        | inr taken ↦ inr (
          ground (
            arith,
            eq_iff key other,
            others other,
            lookup-insert key other (entry val ttl now) (evict_one later order c.items),
          ),
          absent,
          cap,
          over,
        )
      ]
]

-- Del, then Get: a miss for the key, and for any other key what Get returned before.
pub get-del :
    (at : ℕ) (key other : String) (c : MemoryCache)
    → c.closed ≡ false
    → get at other (del key c).0 ≡ (if key == other then err err_cache_miss else get at other c)
unfolding get del
get-del at key other c open_cache = ground (arith, lookup-erase key other c.items)

-- A closed cache answers every call with the closed error (Set's check of the ttl comes first) and
-- keeps its entries; and Close a second time does nothing.
pub closed_answers :
    (now later at : ℕ) (order : List (String × MemoryEntry)) (key : String) (val : List ℕ) (ttl : ℤ)
    (c : MemoryCache)
    → let d = close c in
      (get at key d ≡ err err_memory_closed)
      × (set now later order key val ttl d
          ≡ (d, some (if is_negative ttl then err_negative_ttl else err_memory_closed)))
      × (del key d ≡ (d, some err_memory_closed))
      × (close d ≡ d)
      × (d.items ≡ c.items)
unfolding get set del close
closed_answers now later at order key val ttl c = ground arith

-- A pair that the runtime still has to visit: its entry is in the map, or is gone by now.
abbrev IsVisit : Dict String MemoryEntry → String × MemoryEntry → Type 0
IsVisit items p = (lookup p.0 items ≡ some p.1) ⊎ (lookup p.0 items ≡ none)

IsVisit-erase :
    (k : String) (items : Dict String MemoryEntry) (order : List (String × MemoryEntry))
    → All (IsVisit items) order
    → All (IsVisit (erase k items)) order
IsVisit-erase k items [] a = tt
IsVisit-erase k items ((j, e) ∷ order) a =
    (ground (arith, lookup-erase k j items, a.0), IsVisit-erase k items order a.1)

-- What has expired at one time has expired at each later one.
expired_later :
    (e : MemoryEntry) (now at : ℕ) → now ≤ at → expired e now ≡ true → expired e at ≡ true
unfolding expired
expired_later e now at le h = ground arith

erase-Agree :
    (now at : ℕ) (k key : String) (e : MemoryEntry) (items : Dict String MemoryEntry)
    → now ≤ at
    → expired e now ≡ true
    → IsVisit items (k, e)
    → Agree at (erase k items) items key
unfolding answer
erase-Agree now at k key e items le dead v =
    ground (arith, lookup-erase k key items, eq_iff k key, expired_later e now at le dead)

sweep_items-Agree :
    (now at : ℕ) (key : String) (order : List (String × MemoryEntry))
    (items : Dict String MemoryEntry)
    → now ≤ at
    → All (IsVisit items) order
    → Agree at (sweep_items now order items) items key
unfolding sweep_items
sweep_items-Agree now at key [] items le a = refl
sweep_items-Agree now at key ((k, e) ∷ order) items le a = elim (Bool-cases (expired e now)) [
  | inr live ↦ rw (live, sweep_items) (sweep_items-Agree now at key order items le a.1)
  | inl dead ↦
      rw (dead, sweep_items)
        (sweep_items-Agree now at key order (erase k items) le (IsVisit-erase k items order a.1)
          ∙ erase-Agree now at k key e items le dead a.0)
]

IsVisit-of_entry :
    (items : Dict String MemoryEntry) (order : List (String × MemoryEntry))
    → All (λ p. lookup p.0 items ≡ some p.1) order
    → All (IsVisit items) order
IsVisit-of_entry items [] a = tt
IsVisit-of_entry items (p ∷ order) a = (inl a.0, IsVisit-of_entry items order a.1)

-- No caller can tell that the janitor ran: from its tick on, Get of any key returns what it would
-- have returned without the sweep.
pub get-sweep :
    (now at : ℕ) (order : List (String × MemoryEntry)) (key : String) (c : MemoryCache)
    → IsOrder c.items order
    → now ≤ at
    → get at key (sweep now order c) ≡ get at key c
unfolding get sweep
get-sweep now at order key c o le =
    rw (
      sweep_items-Agree now at key order c.items le (IsVisit-of_entry c.items order o.entries),
      get,
    )
