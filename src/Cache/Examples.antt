-- ===== src/Cache/Examples.antt =====
-- The in-memory cache at concrete operations.
use gortexa.Common.{
  String, List, string_eq, nat_eq, true, false, none, some, [], ◌∷◌, ◌≡◌, ◌≤◌, ◌<◌, ◌⊎◌, refl,
  arith, length, if◌then◌else◌, All, take,
}
use gortexa.Common.Int.{pos, negsuc}
use gortexa.Common.Result.{ok}
use gortexa.Common.Dict.{lookup, insert, erase}
use gortexa.Cache.{
  MemoryEntry, MemoryCache, max_entries, new_in_memory, get, set, evict_one, expired, is_full,
  entry,
}
use gortexa.Cache.Eviction.{IsOrder, IsLive, evict_one-victim}
use gortexa.Cache.Bounds.{start, next, do_set, length-Reach}
use gortexa.Cache.Refinement.{
  Op, put, drop, apply, run, answers_of, changes, IsUnbounded, AreAllowed, get-run,
}

abbrev soon : MemoryEntry
soon = record { val = 1 ∷ []; expires_at = some 10 }

abbrev late : MemoryEntry
late = record { val = 2 ∷ []; expires_at = none }

-- A full cache of two entries, the second of which expires at 10.
abbrev two : MemoryCache
two = record { items = ("b", late) ∷ ("a", soon) ∷ []; max_entries = 2; closed = false }

two-IsOrder : IsOrder two.items two.items
unfolding lookup
two-IsOrder = record { entries = (refl, (refl, tt)); whole = refl }

victim_of_two :
    (v : String) × (e : MemoryEntry) × (lookup v two.items ≡ some e)
    × ((k : String)
        → lookup k (evict_one 11 two.items two.items)
          ≡ (if string_eq.same_key v k then none else lookup k two.items))
    × (length (evict_one 11 two.items two.items) < length two.items)
    × ((expired e 11 ≡ true) ⊎ All (IsLive 11) (take 8 two.items))
victim_of_two = evict_one-victim 11 two.items two.items two-IsOrder (omega arith)

abbrev one_key : MemoryCache
one_key = (set 3 4 [] "k" (7 ∷ []) (pos 5) (new_in_memory (pos 1))).0

new-IsOrder : IsOrder (new_in_memory (pos 1)).items []
unfolding new_in_memory
new-IsOrder = record { entries = tt; whole = refl }

length-Reach_example : length one_key.items ≤ max_entries (pos 1)
unfolding max_entries
length-Reach_example =
    length-Reach (pos 1) one_key (next start (do_set 3 4 [] "k" (7 ∷ []) (pos 5) new-IsOrder))
      (omega arith)

-- The empty cache without a bound, and three operations on it, of which the second is refused.
abbrev unbounded : MemoryCache
unbounded = new_in_memory (negsuc 0)

unbounded-IsUnbounded : IsUnbounded unbounded
unfolding new_in_memory max_entries
unbounded-IsUnbounded = refl

abbrev held : List (String × MemoryEntry)
held = ("k", record { val = 7 ∷ []; expires_at = some 8 }) ∷ []

abbrev ops : List Op
ops = put 3 4 [] "k" (7 ∷ []) (pos 5) ∷ put 4 5 held "k" [] (negsuc 2) ∷ drop "j" ∷ []

ops-AreAllowed : AreAllowed 6 ops unbounded
unfolding new_in_memory apply set is_full entry insert erase lookup
ops-AreAllowed = (
  record { entries = tt; whole = refl },
  (record { entries = (refl, tt); whole = refl }, (tt, tt)),
)

get-run_example : get 6 "k" (run ops unbounded) ≡ (changes 6 ops (answers_of 6 unbounded)).view "k"
get-run_example = get-run 6 ops unbounded "k" unbounded-IsUnbounded ops-AreAllowed

kept_value : (changes 6 ops (answers_of 6 unbounded)).view "k" ≡ ok (7 ∷ [])
unfolding new_in_memory
kept_value = refl
