-- ===== src/Cache/Bounds.antt =====
-- cache/memory.go: the cap on the number of entries, over any use of the cache.
use gortexa.Common.{
  ℕ, String, string_eq, nat_eq, Option, List, [], ◌∷◌, ◌≤◌, ◌<◌, ◌≡◌, inl, inr, if◌then◌else◌, leb,
  length, arith, refl, Bool-cases, Option-cases, if_elim, ◌∙◌,
}
use gortexa.Common.Int.{ℤ, is_negative}
use gortexa.Apperr.Types.{Err}
use gortexa.Common.Dict.{
  Dict, lookup, insert, erase, length-erase-le, length-insert-le, length-insert_present,
}
use gortexa.Cache.{
  MemoryEntry, MemoryCache, max_entries, new_in_memory, expired, sweep, sweep_items, set, del,
  close, is_full, entry, evict_one,
}
use gortexa.Cache.Eviction.{IsOrder, evict_one-victim}

-- One use of the cache. Set and the janitor visit the map in an order that the runtime chooses.
pub data Step (c : MemoryCache) : MemoryCache → Type 0 where
  do_set :
      (now later : ℕ) (order : List (String × MemoryEntry)) (key : String) (val : List ℕ) (ttl : ℤ)
      → IsOrder c.items order
      → Step c (set now later order key val ttl c).0
  do_del : (key : String) → Step c (del key c).0
  do_sweep : (now : ℕ) (order : List (String × MemoryEntry)) → Step c (sweep now order c)
  do_close : Step c (close c)

pub data Reach (configured : ℤ) : MemoryCache → Type 0 where
  start : Reach configured (new_in_memory configured)
  next : {c d : MemoryCache} → Reach configured c → Step c d → Reach configured d

-- With a cap, the entries fit under it.
abbrev pub IsBounded : MemoryCache → Type 0
IsBounded c = 0 < c.max_entries → length c.items ≤ c.max_entries

length-sweep_items :
    (now : ℕ) (order : List (String × MemoryEntry)) (items : Dict String MemoryEntry)
    → length (sweep_items now order items) ≤ length items
unfolding sweep_items
length-sweep_items now [] items = omega arith
length-sweep_items now ((k, e) ∷ order) items = ground (
  arith,
  length-sweep_items now order (if expired e now then erase k items else items),
  length-erase-le k items,
)

insert-IsBounded :
    (later : ℕ) (order : List (String × MemoryEntry)) (key : String) (e : MemoryEntry)
    (c : MemoryCache)
    → IsOrder c.items order
    → IsBounded c
    → 0 < c.max_entries
    → length (insert key e (if is_full key c then evict_one later order c.items else c.items))
      ≤ c.max_entries
unfolding is_full
insert-IsBounded later order key e c o fits cap = elim (Option-cases (lookup key c.items)) [
  | inr (old, present) ↦
      rw (present, is_full)
        (omega (arith, length-insert_present key e old c.items present, fits cap))
  | inl absent ↦ elim (Bool-cases (leb c.max_entries (length c.items))) [
    | inl full ↦
        let (v, x, found, other, less, choice) =
          evict_one-victim later order c.items o (ground arith) in
        rw (absent, full, is_full)
          (ground (arith, length-insert-le key e (evict_one later order c.items), fits cap))
    | inr room ↦ ground (arith, length-insert-le key e c.items)
  ]
]

-- What a step keeps.
abbrev Kept : MemoryCache → MemoryCache → Type 0
Kept c d = IsBounded d × (d.max_entries ≡ c.max_entries)

set-Kept :
    (now later : ℕ) (order : List (String × MemoryEntry)) (key : String) (val : List ℕ) (ttl : ℤ)
    (c : MemoryCache)
    → IsOrder c.items order
    → IsBounded c
    → Kept c (set now later order key val ttl c).0
unfolding set
set-Kept now later order key val ttl c o fits =
    if_elim {A = MemoryCache × Option Err} (λ r. Kept c r.0) (is_negative ttl) (λ _. (fits, refl))
      λ _.
        if_elim {A = MemoryCache × Option Err} (λ r. Kept c r.0) c.closed (λ _. (fits, refl))
          λ _. (λ cap. insert-IsBounded later order key (entry val ttl now) c o fits cap, refl)

Step-IsBounded : {c d : MemoryCache} → Step c d → IsBounded c → Kept c d
unfolding set del sweep close
Step-IsBounded {c = c} (do_set now later order key val ttl o) fits =
    set-Kept now later order key val ttl c o fits
Step-IsBounded {c = c} (do_del key) fits = ground (arith, length-erase-le key c.items)
Step-IsBounded {c = c} (do_sweep now order) fits =
    ground (arith, length-sweep_items now order c.items)
Step-IsBounded do_close fits = ground arith

Reach-IsBounded :
    {configured : ℤ} {c : MemoryCache}
    → Reach configured c
    → IsBounded c × (c.max_entries ≡ max_entries configured)
unfolding new_in_memory
Reach-IsBounded start = (λ cap. omega arith, refl)
Reach-IsBounded (next r st) =
    let (fits, same) = Reach-IsBounded r in
    let (fits', same') = Step-IsBounded st fits in (fits', same' ∙ same)

-- After any operations on a new cache, whatever the clocks and the runtime's visiting orders, the
-- entries do not exceed the configured cap, if there is one.
pub length-Reach :
    (configured : ℤ) (c : MemoryCache)
    → Reach configured c
    → 0 < max_entries configured
    → length c.items ≤ max_entries configured
length-Reach configured c r cap =
    let (fits, same) = Reach-IsBounded r in omega (arith, fits (omega (arith, same)), same)
