-- ===== src/Health/Examples.antt =====
-- health/health.go at concrete registries and watchers.
use gortexa.Common.{
  ℕ, String, string_eq, none, some, List, [], ◌∷◌, ◌+◌, ◌≤◌, ◌≡◌, ◌↔◌, ◌⊎◌, ◌<◌, arith, refl,
  length, ltb, nat_eq, if◌then◌else◌, true, false, count_p,
}
use gortexa.Common.Dict.{lookup, insert, erase}
use gortexa.Health.{
  Probe, registers, change, changes, after_register, healthy, degraded, unhealthy, new_registry,
  cached_snapshot, snapshot, status_for, draining, register, register_found, replace, is_fresh,
  served, eval_all, eval_check, recovered, watch, send, sent_then, status_code, watch_loop,
  watch_interval, serving, not_serving, Wake, tick, drain_begins, Check,
}
use gortexa.Health.Serving.{NoneUnhealthy, status_for-serving}
use gortexa.Health.Watch.{heard, changed, until_refused, watch-changed}
use gortexa.Health.Snapshot.{Event, alters, probed, run, step, Probed, cached_snapshot-current}
use gortexa.Health.Watchers
use gortexa.Health.Watchers.{
  max_watchers, max_watchers_per_peer, held_by, arrives, asks, ends, withdraws, arrive, ask, end,
  withdraw, add_watcher, acquire_peer, release_peer, remove_watcher, arrived_stage, asked_stage,
  idle,
}
use gortexa.Health.Watchers.Caps.{is_admitted, is_open_from, run_caps_watchers}

-- A database that fails from moment 50 on, and a cache that is always degraded.
abbrev db : Check
db now = if ltb now 50 then some healthy else none

abbrev slow : Check
slow now = some degraded

-- Probes during which nothing changes the registry.
abbrev plain : ℕ → ℕ → Probe
plain start end_at = record {
  now = start;
  at = λ n. start + 1;
  done = end_at;
  before_copy = [];
  before_store = [];
}

abbrev early : Probe
early = plain 10 12

abbrev soon : Probe
soon = plain 60 62

abbrev boot : List Event
boot = alters (registers "db" db) ∷ alters (registers "cache" slow) ∷ probed early ∷ []

served_from_cache :
    (cached_snapshot soon (run boot new_registry)).1 ≡ ("cache", degraded) ∷ ("db", healthy) ∷ []
unfolding run step change changes register register_found after_register replace insert erase lookup
    cached_snapshot is_fresh served snapshot eval_all eval_check recovered new_registry
served_from_cache = refl

seen_later :
    (cached_snapshot (plain 2000000000 2000000001) (run boot new_registry)).1
    ≡ ("cache", degraded) ∷ ("db", unhealthy) ∷ []
unfolding run step change changes register register_found after_register replace insert erase lookup
    cached_snapshot is_fresh served snapshot eval_all eval_check recovered new_registry
seen_later = refl

cached_snapshot-current_example :
    let r = run boot new_registry in
    let snap = (cached_snapshot soon r).1 in
    (snap ≡ snapshot (λ n. 60 + 1) (changes [] r))
    ⊎ ((earlier : String → ℕ) × ((finished : ℕ) × (Probed boot earlier finished
            × (snap ≡ snapshot earlier r)
            × (60 < finished + watch_interval))))
cached_snapshot-current_example = cached_snapshot-current boot soon (omega arith)

status_for-serving_example :
    let r = run boot new_registry in
    ((status_for soon "" r).1 ≡ serving)
    ↔ ((draining r ≡ false) × NoneUnhealthy (cached_snapshot soon r).1)
status_for-serving_example = status_for-serving soon (run boot new_registry)

abbrev wakes : List Wake
wakes = tick serving true ∷ tick not_serving true ∷ drain_begins not_serving true ∷ []

sent_to_watcher : watch serving true wakes ≡ serving ∷ not_serving ∷ []
unfolding watch watch_loop send sent_then status_code
sent_to_watcher = refl

watch-changed_example :
    watch serving true wakes ≡ until_refused ((serving, true) ∷ changed serving (heard wakes))
watch-changed_example = watch-changed serving true wakes (λ h. cc)

-- One client opens two streams and ends the first, while another opens one.
abbrev traffic : List Watchers.Event
traffic =
    arrives (some "10.0.0.1")
    ∷ arrives (some "10.0.0.2")
    ∷ asks 1
    ∷ asks 1
    ∷ arrives (some "10.0.0.1")
    ∷ asks 0
    ∷ ends 2
    ∷ withdraws 0
    ∷ []

run_caps_watchers_example :
    let v = Watchers.run traffic idle in
    (v.slots.watchers ≡ length v.streams)
    × (count_p is_admitted v.streams ≤ max_watchers)
    × (held_by (lookup "10.0.0.1" v.slots.per_peer) ≡ count_p (is_open_from "10.0.0.1") v.streams)
    × (count_p (is_open_from "10.0.0.1") v.streams ≤ max_watchers_per_peer)
run_caps_watchers_example = run_caps_watchers traffic "10.0.0.1"

-- What it leaves: one stream of each client, and a gauge of two.
left_open : (Watchers.run traffic idle).slots.watchers ≡ 2
unfolding Watchers.run Watchers.step arrive ask end withdraw add_watcher acquire_peer release_peer
    remove_watcher arrived_stage asked_stage held_by insert erase lookup
left_open = refl
