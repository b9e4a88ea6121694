-- ===== src/Health/Watchers.antt =====
-- health/health.go: acquireWatcher, its release and the two caps. What an atomic Add or the mutex of
-- the per-peer map makes one action is one step, so that the steps of many streams interleave. A
-- peer's key is that of watcherPeerKey, `none` where the stream has no network peer.
pub mod Caps
use gortexa.Common.{
  ℕ, zero, suc, String, string_eq, Bool, true, false, Option, none, some, List, [], ◌∷◌, ◌+◌, ◌-◌,
  ◌≤◌, ◌≡◌, arith, refl, if◌then◌else◌, ltb, leb, length, get_elem?, erase_at, count_p, ◌==◌,
  count_p-erase_at, Bool-cases, inl, inr, beq_refl, subst, ap, ◌∙◌, Option-cases, sym,
}
use gortexa.Common.Dict.{Dict, lookup, insert, erase, lookup-insert, lookup-erase}

abbrev pub max_watchers : ℕ
max_watchers = 1024

abbrev pub max_watchers_per_peer : ℕ
max_watchers_per_peer = 64

-- The counters of grpcHealth.
pub record Slots : Type 0 where
  pub watchers : ℕ
  pub per_peer : Dict String ℕ

-- m[key] of a map of ints, zero on a missing key
unfoldable pub held_by : Option ℕ → ℕ
held_by none = 0
held_by (some n) = n

-- acquireWatcher, its first step: Add(1), and whether it is over the cap.
unfoldable pub add_watcher : Slots → Slots × Bool
add_watcher s = (record s { watchers = s.watchers + 1 }, ltb max_watchers (s.watchers + 1))

-- acquireWatcher, the section under the lock: whether the peer may have one stream more.
unfoldable pub acquire_peer : String → Slots → Slots × Bool
unfolding held_by
acquire_peer key s =
    let n = held_by (lookup key s.per_peer) in
    if leb max_watchers_per_peer n
    then (s, false)
    else (record s { per_peer = insert key (n + 1) s.per_peer }, true)

-- The release that acquireWatcher returns, its section under the lock.
unfoldable pub release_peer : String → Slots → Slots
unfolding held_by
release_peer key s =
    let n = held_by (lookup key s.per_peer) in
    record s { per_peer = if leb n 1 then erase key s.per_peer else insert key (n - 1) s.per_peer }

-- Add(-1), the last step of a refusal and of the release.
unfoldable pub remove_watcher : Slots → Slots
remove_watcher s = record s { watchers = s.watchers - 1 }

-- How far a stream is: counted, with its peer's share still to be asked for; refused, with its count
-- still to be taken back; open; and released, with its count still to be taken back.
pub data Stage : Type 0 where
  counted refused open_stream leaving : Stage

abbrev pub Stream : Type 0
Stream = Stage × Option String

-- The server with its streams and the attempts to open one. A stream that takes a step goes to the
-- front.
pub record Server : Type 0 where
  pub slots : Slots
  pub streams : List Stream

pub data Event : Type 0 where
  arrives : Option String → Event
  asks ends withdraws : ℕ → Event

unfoldable pub arrived_stage : Bool → Option String → Stage
arrived_stage true key = refused
arrived_stage false none = open_stream
arrived_stage false (some key) = counted

unfoldable pub asked_stage : Bool → Stage
asked_stage true = open_stream
asked_stage false = refused

abbrev move : ℕ → Slots → Stream → Server → Server
move i s x v = record { slots = s; streams = x ∷ erase_at v.streams i }

unfoldable pub arrive : Option String → Server → Server
unfolding add_watcher arrived_stage
arrive key v = record {
  slots = (add_watcher v.slots).0;
  streams = (arrived_stage (add_watcher v.slots).1 key, key) ∷ v.streams;
}

unfoldable pub ask : ℕ → Option Stream → Server → Server
unfolding acquire_peer asked_stage
ask i none v = v
ask i (some (counted, none)) v = v
ask i (some (counted, some key)) v =
    let (s, taken) = acquire_peer key v.slots in move i s (asked_stage taken, some key) v
ask i (some (refused, key)) v = v
ask i (some (open_stream, key)) v = v
ask i (some (leaving, key)) v = v

unfoldable pub end : ℕ → Option Stream → Server → Server
unfolding release_peer
end i none v = v
end i (some (counted, key)) v = v
end i (some (refused, key)) v = v
end i (some (open_stream, none)) v = move i v.slots (leaving, none) v
end i (some (open_stream, some key)) v = move i (release_peer key v.slots) (leaving, some key) v
end i (some (leaving, key)) v = v

unfoldable pub withdraw : ℕ → Option Stream → Server → Server
unfolding remove_watcher
withdraw i none v = v
withdraw i (some (counted, key)) v = v
withdraw i (some (refused, key)) v = record {
  slots = remove_watcher v.slots;
  streams = erase_at v.streams i;
}
withdraw i (some (open_stream, key)) v = v
withdraw i (some (leaving, key)) v = record {
  slots = remove_watcher v.slots;
  streams = erase_at v.streams i;
}

unfoldable pub step : Event → Server → Server
unfolding arrive ask end withdraw
step (arrives key) v = arrive key v
step (asks i) v = ask i (get_elem? v.streams i) v
step (ends i) v = end i (get_elem? v.streams i) v
step (withdraws i) v = withdraw i (get_elem? v.streams i) v

unfoldable pub run : List Event → Server → Server
unfolding step
run [] v = v
run (e ∷ es) v = run es (step e v)

abbrev pub idle : Server
idle = record { slots = record { watchers = 0; per_peer = [] }; streams = [] }
