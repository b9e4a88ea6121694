-- ===== src/Cache/Eviction.antt =====
-- cache/memory.go: which entry evictOne takes.
use gortexa.Common.{
  ℕ, zero, suc, String, string_eq, nat_eq, true, false, none, some, List, [], ◌∷◌, ◌==◌, ◌+◌, ◌<◌,
  ◌≡◌, ◌≢◌, ◌⊎◌, inl, inr, if◌then◌else◌, length, All, arith, refl, Bool-cases, take, if_elim,
}
use gortexa.Common.Dict.{Dict, lookup, lookup-erase, length-erase-lt}
use gortexa.Cache.{MemoryEntry, expired, victim_from, evict_one}

abbrev pub IsPresent : Dict String MemoryEntry → String → Type 0
IsPresent items k = (e : MemoryEntry) × (lookup k items ≡ some e)

-- What Go gives of a range over the map: each entry is visited, and no other.
pub record IsOrder (items : Dict String MemoryEntry) (order : List (String × MemoryEntry))
    : Type 0 where
  pub entries : All (λ p. lookup p.0 items ≡ some p.1) order
  pub whole : length order ≡ length items

abbrev pub IsLive : ℕ → String × MemoryEntry → Type 0
IsLive now p = expired p.1 now ≡ false

starts : (visited : ℕ) → (visited == 0) ≡ false → visited ≢ 0
starts visited h e = ground arith

not_last : (visited left : ℕ) → visited + suc (suc left) ≡ 8 → (visited + 1 == 8) ≡ false
not_last visited left h = ground arith

module _ (items : Dict String MemoryEntry) (now : ℕ) where
  -- Past the first round the victim so far is a key of the map, and the loop returns one.
  victim_from-IsPresent :
      (visited : ℕ) (victim : String) (order : List (String × MemoryEntry))
      → All (λ p. lookup p.0 items ≡ some p.1) order
      → IsPresent items victim ⊎ ((visited ≡ 0) × (0 < length order))
      → IsPresent items (victim_from now visited victim order)
  unfolding victim_from
  victim_from-IsPresent visited victim [] a (inl p) = p
  victim_from-IsPresent visited victim [] a (inr q) = absurd (omega (arith, q.1))
  victim_from-IsPresent visited victim ((k, e) ∷ order) a h =
      let first : IsPresent items (if visited == 0 then k else victim) =
        if_elim (IsPresent items) (visited == 0) (λ _. (e, a.0))
          λ later. elim h [ inl p ↦ p | inr q ↦ absurd (starts visited later q.0) ] in
      if_elim (IsPresent items) (expired e now) (λ _. (e, a.0))
        λ _.
          if_elim (IsPresent items) (visited + 1 == 8) (λ _. first)
            λ _.
              victim_from-IsPresent (visited + 1) (if visited == 0 then k else victim) order a.1
                (inl first)

  -- The loop returns an expired key, or it has seen none among those that it visited.
  victim_from-expired :
      (visited left : ℕ) (victim : String) (order : List (String × MemoryEntry))
      → All (λ p. lookup p.0 items ≡ some p.1) order
      → visited + suc left ≡ 8
      → ((e : MemoryEntry) × (lookup (victim_from now visited victim order) items ≡ some e)
          × (expired e now ≡ true))
        ⊎ All (IsLive now) (take (suc left) order)
  unfolding victim_from
  victim_from-expired visited left victim [] a h = inr tt
  victim_from-expired visited zero victim ((k, e) ∷ order) a h = elim (Bool-cases (expired e now)) [
    | inl dead ↦ inl (e, rw dead a.0, dead)
    | inr live ↦ inr (live, tt)
  ]
  victim_from-expired visited (suc left) victim ((k, e) ∷ order) a h =
      let first = if visited == 0 then k else victim in
      elim (Bool-cases (expired e now)) [
        | inl dead ↦ inl (e, rw dead a.0, dead)
        | inr live ↦
            elim (victim_from-expired (visited + 1) left first order a.1 (omega (arith, h))) [
              | inl (x, found, dead) ↦ inl (x, rw (live, not_last visited left h) found, dead)
              | inr none_dead ↦ inr (live, none_dead)
            ]
      ]

-- To make room costs one entry, which was there; and if one of the first eight entries that the
-- runtime visits has expired, the entry that goes has expired.
pub evict_one-victim :
    (now : ℕ) (order : List (String × MemoryEntry)) (items : Dict String MemoryEntry)
    → IsOrder items order
    → 0 < length items
    → (v : String) × (e : MemoryEntry) × (lookup v items ≡ some e)
      × ((k : String)
          → lookup k (evict_one now order items) ≡ (if v == k then none else lookup k items))
      × (length (evict_one now order items) < length items)
      × ((expired e now ≡ true) ⊎ All (IsLive now) (take 8 order))
unfolding evict_one
evict_one-victim now order items o some_entry =
    let v = victim_from now 0 "" order in
    let (e, found) =
      victim_from-IsPresent items now 0 "" order o.entries (inr (refl, omega (arith, o.whole))) in
    (
      v,
      e,
      found,
      (λ k. lookup-erase v k items),
      length-erase-lt v items e found,
      elim (victim_from-expired items now 0 7 "" order o.entries refl) [
        | inl (x, same, dead) ↦ inl (ground arith)
        | inr none_dead ↦ inr none_dead
      ],
    )
