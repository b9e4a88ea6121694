-- ===== src/Health/Watchers/Caps.antt =====
-- health/health.go: the bounds on the watch streams, over the steps of many of them.
use gortexa.Common.{
  ℕ, zero, suc, String, string_eq, Bool, true, false, Option, none, some, List, [], ◌∷◌, ◌+◌, ◌-◌,
  ◌≤◌, ◌≡◌, arith, refl, if◌then◌else◌, ltb, leb, length, get_elem?, erase_at, count_p, ◌==◌,
  count_p-erase_at, Bool-cases, inl, inr, beq_refl, subst, ap, ◌∙◌, sym,
}
use gortexa.Common.Dict.{Dict, lookup, insert, erase, lookup-insert, lookup-erase}
use gortexa.Health.Watchers.{
  max_watchers, max_watchers_per_peer, Slots, held_by, add_watcher, acquire_peer, release_peer,
  remove_watcher, counted, refused, open_stream, leaving, Stream, Server, Event, arrives, asks,
  ends, withdraws, arrived_stage, asked_stage, arrive, ask, end, withdraw, step, run, idle,
}

-- Whether a stream got past the global cap.
abbrev pub is_admitted : Stream → Bool
is_admitted (counted, key) = true
is_admitted (refused, key) = false
is_admitted (open_stream, key) = true
is_admitted (leaving, key) = true

-- Whether it is an open stream of a peer.
abbrev pub is_open_from : String → Stream → Bool
is_open_from k (counted, key) = false
is_open_from k (refused, key) = false
is_open_from k (open_stream, none) = false
is_open_from k (open_stream, some j) = j == k
is_open_from k (leaving, key) = false

abbrev held : String → Slots → ℕ
held k s = held_by (lookup k s.per_peer)

abbrev one_if : Bool → ℕ
one_if b = if b then 1 else 0

record Inv (v : Server) : Type 0 where
  exact : v.slots.watchers ≡ length v.streams
  capped : count_p is_admitted v.streams ≤ max_watchers
  shared : (k : String) → held k v.slots ≡ count_p (is_open_from k) v.streams
  fair : (k : String) → held k v.slots ≤ max_watchers_per_peer

count_p-length : {A : Type 0} (p : A → Bool) (xs : List A) → count_p p xs ≤ length xs
count_p-length p [] = omega arith
count_p-length p (x ∷ xs) = ground (arith, count_p-length p xs)

length-erase_at :
    {A : Type 0} (xs : List A) (i : ℕ) (x : A)
    → get_elem? xs i ≡ some x
    → length (erase_at xs i) + 1 ≡ length xs
length-erase_at [] i x h = cc
length-erase_at (y ∷ xs) zero x h = omega arith
length-erase_at (y ∷ xs) (suc i) x h = omega (arith, length-erase_at xs i x h)

held_by-insert :
    (key k : String) (n : ℕ) (m : Dict String ℕ)
    → held_by (lookup k (insert key n m)) ≡ (if key == k then n else held_by (lookup k m))
unfolding held_by
held_by-insert key k n m = elim (Bool-cases (key == k)) [
  | inl same ↦ rw (lookup-insert key k n m, same) refl
  | inr other ↦ rw (lookup-insert key k n m, other) refl
]

held_by-erase :
    (key k : String) (m : Dict String ℕ)
    → held_by (lookup k (erase key m)) ≡ (if key == k then 0 else held_by (lookup k m))
unfolding held_by
held_by-erase key k m = elim (Bool-cases (key == k)) [
  | inl same ↦ rw (lookup-erase key k m, same) refl
  | inr other ↦ rw (lookup-erase key k m, other) refl
]

key_eq : (j k : String) → j == k ≡ true → j ≡ k
key_eq j k h = (string_eq.decides j k).0 h

held_by-grown :
    (key k : String) (s : Slots)
    → held_by (lookup k (insert key (held key s + 1) s.per_peer)) ≡ held k s + one_if (key == k)
held_by-grown key k s =
    (held_by-insert key k (held key s + 1) s.per_peer ∙ elim (Bool-cases (key == k)) [
      | inl same ↦ rw same (ap (λ j. held j s + 1) (key_eq key k same))
      | inr other ↦ rw other (omega arith)
    ])

held-release_peer :
    (key k : String) (s : Slots) → held k (release_peer key s) ≡ held k s - one_if (key == k)
unfolding release_peer
held-release_peer key k s = elim (Bool-cases (key == k)) [
  | inl same ↦
      rw (sym (key_eq key k same), beq_refl key)
        (elim (Bool-cases (leb (held key s) 1)) [
          | inl last ↦
              rw last (held_by-erase key key s.per_peer ∙ rw (beq_refl key) (ground (arith, last)))
          | inr more ↦
              rw more (held_by-insert key key (held key s - 1) s.per_peer ∙ rw (beq_refl key) refl)
        ])
  | inr other ↦ rw other (elim (Bool-cases (leb (held key s) 1)) [
    | inl last ↦ rw last (held_by-erase key k s.per_peer ∙ rw other (omega arith))
    | inr more ↦ rw more (held_by-insert key k (held key s - 1) s.per_peer ∙ rw other (omega arith))
  ])
]

share_left :
    (key k : String) (s : Slots)
    → leb max_watchers_per_peer (held key s) ≡ false
    → held k s ≤ max_watchers_per_peer
    → held k s + one_if (key == k) ≤ max_watchers_per_peer
share_left key k s room cap = elim (Bool-cases (key == k)) [
  | inl same ↦
      rw same (
        subst (λ j. held j s + 1 ≤ max_watchers_per_peer) (key_eq key k same)
          (ground (arith, room)))
  | inr other ↦ rw other (omega (arith, cap))
]

-- A stream at a place takes a step.
module _ (v : Server) (i : ℕ) (x : Stream) (there : get_elem? v.streams i ≡ some x)
    (inv : Inv v) where
  moved :
      (p : Stream → Bool) (y : Stream)
      → count_p p (y ∷ erase_at v.streams i) + one_if (p x) ≡ count_p p v.streams + one_if (p y)
  moved p y = omega (arith, count_p-erase_at p v.streams i x there)

  moved-Inv :
      (s : Slots) (y : Stream)
      → s.watchers ≡ v.slots.watchers
      → one_if (is_admitted y) ≤ one_if (is_admitted x)
      → ((k : String)
          → held k s + one_if (is_open_from k x) ≡ held k v.slots + one_if (is_open_from k y))
      → ((k : String) → held k s ≤ max_watchers_per_peer)
      → Inv (record { slots = s; streams = y ∷ erase_at v.streams i })
  moved-Inv s y same less shares fair = record {
    exact = omega (arith, same, inv.exact, length-erase_at v.streams i x there);
    capped = omega (arith, inv.capped, moved is_admitted y, less);
    shared = λ k. omega (arith, inv.shared k, shares k, moved (is_open_from k) y);
    fair = fair;
  }

  -- A stream that has nothing of its peer's share takes back its count.
  withdrawn-Inv :
      ((k : String) → is_open_from k x ≡ false)
      → Inv (record { slots = remove_watcher v.slots; streams = erase_at v.streams i })
  unfolding remove_watcher
  withdrawn-Inv not_open = record {
    exact = omega (arith, inv.exact, length-erase_at v.streams i x there);
    capped = omega (arith, inv.capped, count_p-erase_at is_admitted v.streams i x there);
    shared = λ k.
        inv.shared k
        ∙ sym (count_p-erase_at (is_open_from k) v.streams i x there)
        ∙ rw (not_open k) (omega arith);
    fair = inv.fair;
  }

arrive-Inv : (key : Option String) (v : Server) → Inv v → Inv (arrive key v)
unfolding arrive add_watcher arrived_stage
arrive-Inv key v inv = elim (Bool-cases (ltb max_watchers (v.slots.watchers + 1))) [
  | inl over ↦ rw over (record {
    exact = omega (arith, inv.exact);
    capped = omega (arith, inv.capped);
    shared = λ k. omega (arith, inv.shared k);
    fair = inv.fair;
  })
  | inr fits ↦ rw fits (fitting key (ground (arith, fits)))
]
  where
    fitting :
        (o : Option String)
        → v.slots.watchers + 1 ≤ max_watchers
        → Inv (record {
          slots = record v.slots { watchers = v.slots.watchers + 1 };
          streams = (arrived_stage false o, o) ∷ v.streams;
        })
    fitting none room = record {
      exact = omega (arith, inv.exact);
      capped = omega (arith, inv.exact, room, count_p-length is_admitted v.streams);
      shared = λ k. omega (arith, inv.shared k);
      fair = inv.fair;
    }
    fitting (some k) room = record {
      exact = omega (arith, inv.exact);
      capped = omega (arith, inv.exact, room, count_p-length is_admitted v.streams);
      shared = λ j. omega (arith, inv.shared j);
      fair = inv.fair;
    }

acquired-Inv :
    (v : Server) (i : ℕ) (key : String)
    → get_elem? v.streams i ≡ some (counted, some key)
    → Inv v
    → Inv (ask i (some (counted, some key)) v)
unfolding ask acquire_peer asked_stage
acquired-Inv v i key there inv = elim (Bool-cases (leb max_watchers_per_peer (held key v.slots))) [
  | inl hoard ↦ rw hoard (
      moved-Inv v i (counted, some key) there inv v.slots (refused, some key) refl (omega arith)
        (λ k. refl) inv.fair)
  | inr room ↦ rw room (
      moved-Inv v i (counted, some key) there inv
        (record v.slots { per_peer = insert key (held key v.slots + 1) v.slots.per_peer })
        (open_stream, some key) refl (omega arith) (λ k. omega (arith, held_by-grown key k v.slots))
        (λ k.
          omega (arith, held_by-grown key k v.slots, share_left key k v.slots room (inv.fair k))))
]

ask-Inv :
    (v : Server) (i : ℕ) (o : Option Stream) → get_elem? v.streams i ≡ o → Inv v → Inv (ask i o v)
unfolding ask
ask-Inv v i none there inv = inv
ask-Inv v i (some (counted, none)) there inv = inv
ask-Inv v i (some (counted, some key)) there inv = acquired-Inv v i key there inv
ask-Inv v i (some (refused, key)) there inv = inv
ask-Inv v i (some (open_stream, key)) there inv = inv
ask-Inv v i (some (leaving, key)) there inv = inv

watchers-release_peer : (key : String) (s : Slots) → (release_peer key s).watchers ≡ s.watchers
unfolding release_peer
watchers-release_peer key s = refl

-- An open stream counts in its peer's share.
open_share :
    (v : Server) (i : ℕ) (key k : String)
    → get_elem? v.streams i ≡ some (open_stream, some key)
    → Inv v
    → one_if (key == k) ≤ held k v.slots
open_share v i key k there inv = omega (
  arith,
  inv.shared k,
  count_p-erase_at (is_open_from k) v.streams i (open_stream, some key) there,
)

end-Inv :
    (v : Server) (i : ℕ) (o : Option Stream) → get_elem? v.streams i ≡ o → Inv v → Inv (end i o v)
unfolding end
end-Inv v i none there inv = inv
end-Inv v i (some (counted, key)) there inv = inv
end-Inv v i (some (refused, key)) there inv = inv
end-Inv v i (some (open_stream, none)) there inv =
    moved-Inv v i (open_stream, none) there inv v.slots (leaving, none) refl (omega arith)
      (λ k. refl) inv.fair
end-Inv v i (some (open_stream, some key)) there inv =
    moved-Inv v i (open_stream, some key) there inv (release_peer key v.slots) (leaving, some key)
      (watchers-release_peer key v.slots) (omega arith)
      (λ k. omega (arith, held-release_peer key k v.slots, open_share v i key k there inv))
      (λ k. omega (arith, held-release_peer key k v.slots, inv.fair k))
end-Inv v i (some (leaving, key)) there inv = inv

withdraw-Inv :
    (v : Server) (i : ℕ) (o : Option Stream)
    → get_elem? v.streams i ≡ o
    → Inv v
    → Inv (withdraw i o v)
unfolding withdraw
withdraw-Inv v i none there inv = inv
withdraw-Inv v i (some (counted, key)) there inv = inv
withdraw-Inv v i (some (refused, key)) there inv =
    withdrawn-Inv v i (refused, key) there inv (λ k. refl)
withdraw-Inv v i (some (open_stream, key)) there inv = inv
withdraw-Inv v i (some (leaving, key)) there inv =
    withdrawn-Inv v i (leaving, key) there inv (λ k. refl)

step-Inv : (e : Event) (v : Server) → Inv v → Inv (step e v)
unfolding step
step-Inv (arrives key) v inv = arrive-Inv key v inv
step-Inv (asks i) v inv = ask-Inv v i (get_elem? v.streams i) refl inv
step-Inv (ends i) v inv = end-Inv v i (get_elem? v.streams i) refl inv
step-Inv (withdraws i) v inv = withdraw-Inv v i (get_elem? v.streams i) refl inv

run-Inv : (es : List Event) (v : Server) → Inv v → Inv (run es v)
unfolding run
run-Inv [] v inv = inv
run-Inv (e ∷ es) v inv = run-Inv es (step e v) (step-Inv e v inv)

idle-Inv : Inv idle
unfolding held_by lookup
idle-Inv = record {
  exact = refl;
  capped = omega arith;
  shared = λ k. refl;
  fair = λ k. omega arith;
}

-- However the steps of streams that open and end interleave, those of refused ones included: the gauge
-- is the number of streams and of attempts to open one that have not taken back their count; at most
-- 1024 of them are past the global cap; and each peer's counter is the number of streams open from
-- that peer, which is at most 64.
pub run_caps_watchers :
    (es : List Event) (k : String)
    → let v = run es idle in
      (v.slots.watchers ≡ length v.streams)
      × (count_p is_admitted v.streams ≤ max_watchers)
      × (held_by (lookup k v.slots.per_peer) ≡ count_p (is_open_from k) v.streams)
      × (count_p (is_open_from k) v.streams ≤ max_watchers_per_peer)
run_caps_watchers es k =
    let inv = run-Inv es idle idle-Inv in
    (inv.exact, inv.capped, inv.shared k, omega (arith, inv.shared k, inv.fair k))
