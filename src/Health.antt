-- ===== src/Health.antt =====
-- health/health.go: the registry of checks, the gRPC health service over it and the caps on its
-- watchers. A moment is a ℕ, in the unit of `watch_interval`. The registry's lock makes a change of it
-- one step; CachedSnapshot says which changes fall between its steps.
pub mod Serving
pub mod Watch
pub mod Snapshot
pub mod Watchers
mod Examples
use gortexa.Common.{
  ℕ, String, string_eq, nat_eq, Bool, true, false, Option, none, some, List, [], ◌∷◌, ◌++◌, ◌+◌,
  ◌-◌, ◌^◌, ◌%◌, ◌==◌, ◌&&◌, if◌then◌else◌, ltb,
}
use gortexa.Common.Dict.{Dict, lookup, insert, erase}

pub data State : Type 0 where
  healthy : State
  degraded : State
  unhealthy : State

-- The number of a state, which `>` compares.
unfoldable pub rank : State → ℕ
rank healthy = 0
rank degraded = 1
rank unhealthy = 2

-- String
unfoldable pub state_name : State → String
state_name healthy = "healthy"
state_name degraded = "degraded"
state_name unhealthy = "unhealthy"

-- Serving
unfoldable pub is_serving : State → Bool
is_serving unhealthy = false
is_serving healthy = true
is_serving degraded = true

-- Check: what it reports at a moment, `none` where it panics.
abbrev pub Check : Type 0
Check = ℕ → Option State

-- The recover of evalCheck.
unfoldable pub recovered : Option State → State
recovered none = unhealthy
recovered (some s) = s

unfoldable pub eval_check : ℕ → Check → State
unfolding recovered
eval_check now c = recovered (c now)

pub record Registry : Type 0 where
  pub checks : Dict String Check
  pub gen : ℕ
  pub eval_at : ℕ
  pub eval_gen : ℕ
  pub eval_snap : Option (Dict String State)
  pub drained : Bool

-- NewRegistry
unfoldable pub new_registry : Registry
new_registry = record {
  checks = [];
  gen = 0;
  eval_at = 0;
  eval_gen = 0;
  eval_snap = none;
  drained = false;
}

unfoldable pub drain : Registry → Registry
drain r = record r { drained = true }

unfoldable pub draining : Registry → Bool
draining r = r.drained

-- The counter `gen` is a uint64.
unfoldable pub replace : String → Check → Registry → Registry
replace name c r = record r { checks = insert name c r.checks; gen = (r.gen + 1) % 2 ^ 64 }

register_found : Option Check → String → Check → Registry → Option Registry
unfolding replace
register_found (some dup) name c r = none
register_found none name c r = some (replace name c r)

-- Register; `none` is the panic on a name that is taken.
unfoldable pub register : String → Check → Registry → Option Registry
unfolding register_found
register name c r = register_found (lookup name r.checks) name c r

-- The loop of Snapshot; `at` says at which moment each check runs.
unfoldable pub eval_all : (String → ℕ) → Dict String Check → Dict String State
unfolding eval_check
eval_all at [] = []
eval_all at ((n, c) ∷ cs) = (n, eval_check (at n) c) ∷ eval_all at cs

unfoldable pub snapshot : (String → ℕ) → Registry → Dict String State
snapshot at r = eval_all at r.checks

abbrev pub watch_interval : ℕ
watch_interval = 1000000000

-- The test for a snapshot that may still be served.
unfoldable pub is_fresh : ℕ → Registry → Option (Dict String State) → Bool
is_fresh now r none = false
is_fresh now r (some snap) = (r.eval_gen == r.gen) && ltb (now - r.eval_at) watch_interval

unfoldable pub served : Option (Dict String State) → Dict String State
served none = []
served (some snap) = snap

-- What may change the registry while a snapshot is taken.
pub data Change : Type 0 where
  registers : String → Check → Change
  replaces : String → Check → Change
  drains : Change

unfoldable pub after_register : Registry → Option Registry → Registry
after_register r none = r
after_register r (some r') = r'

unfoldable pub change : Change → Registry → Registry
unfolding after_register
change (registers name c) r = after_register r (register name c r)
change (replaces name c) r = replace name c r
change drains r = drain r

unfoldable pub changes : List Change → Registry → Registry
unfolding change
changes [] r = r
changes (c ∷ cs) r = changes cs (change c r)

-- A call of CachedSnapshot: the moments of its test, of each check, and the one after, and what
-- changes the registry once it has read the generation: before it copies the checks, and from then
-- until it stores the snapshot. Its mutex keeps other calls out.
pub record Probe : Type 0 where
  pub now : ℕ
  pub at : String → ℕ
  pub done : ℕ
  pub before_copy : List Change
  pub before_store : List Change

-- CachedSnapshot
unfoldable pub cached_snapshot : Probe → Registry → Registry × Dict String State
unfolding is_fresh served snapshot changes
cached_snapshot p r =
    let copied = changes p.before_copy r in
    let snap = snapshot p.at copied in
    if is_fresh p.now r r.eval_snap then (r, served r.eval_snap) else (
      record (changes p.before_store copied) {
        eval_snap = some snap;
        eval_at = p.done;
        eval_gen = r.gen;
      },
      snap,
    )

unfoldable pub worst_from : State → Dict String State → State
unfolding rank
worst_from w [] = w
worst_from w ((n, s) ∷ rest) = worst_from (if ltb (rank w) (rank s) then s else w) rest

unfoldable pub worst : Dict String State → State
unfolding worst_from
worst states = worst_from healthy states

unfoldable pub overall : (String → ℕ) → Registry → State
overall at r = worst (snapshot at r)

eval_found : ℕ → Option Check → State × Bool
eval_found now none = (healthy, false)
eval_found now (some c) = (eval_check now c, true)

-- State, the method
unfoldable pub state_of : ℕ → String → Registry → State × Bool
unfolding eval_found
state_of now name r = eval_found now (lookup name r.checks)

-- ServingStatus, with the impossible -1 of Watch
pub data Status : Type 0 where
  serving : Status
  not_serving : Status
  service_unknown : Status
  impossible : Status

unfoldable pub status_code : Status → ℕ
status_code serving = 1
status_code not_serving = 2
status_code service_unknown = 3
status_code impossible = 4

unfoldable pub serving_of : State → Status
unfolding is_serving
serving_of s = if is_serving s then serving else not_serving

serving_found : Option State → Status
serving_found none = service_unknown
serving_found (some s) = serving_of s

-- statusFor once it has its snapshot
unfoldable pub status_in : String → Dict String State → Status
unfolding serving_of serving_found
status_in service snap =
    if service == "" then serving_of (worst snap) else serving_found (lookup service snap)

unfoldable pub status_for : Probe → String → Registry → Registry × Status
status_for p service r =
    if draining r
    then (r, not_serving)
    else (let (r', snap) = cached_snapshot p r in (r', status_in service snap))

answer_check : Registry × Status → Registry × Option Status
answer_check (r, service_unknown) = (r, none)
answer_check (r, serving) = (r, some serving)
answer_check (r, not_serving) = (r, some not_serving)
answer_check (r, impossible) = (r, some impossible)

-- Check, the RPC; `none` is its NotFound error.
unfoldable pub check : Probe → String → Registry → Registry × Option Status
unfolding answer_check
check p service r = answer_check (status_for p service r)

-- What wakes the loop of Watch: the client leaves, the server drains, the ticker ticks. With it the
-- status that statusFor answers then, and whether the stream takes a response.
pub data Wake : Type 0 where
  left : Wake
  drain_begins : Status → Bool → Wake
  tick : Status → Bool → Wake

-- The closure `send`: the new `last`, what goes on the wire, and whether it went well.
unfoldable pub send : Status → Status → Bool → Status × List Status × Bool
unfolding status_code
send last st accepted =
    if status_code st == status_code last then (last, [], true) else (st, st ∷ [], accepted)

-- What the loop makes of a send: it goes on with `rest` if the stream took the response.
unfoldable pub sent_then : List Status → Bool → List Status → List Status
sent_then out accepted rest = if accepted then out ++ rest else out

-- The loop of Watch: the responses that it hands to the stream.
unfoldable pub watch_loop : Status → List Wake → List Status
unfolding send sent_then
watch_loop last [] = []
watch_loop last (left ∷ ws) = []
watch_loop last (drain_begins st accepted ∷ ws) =
    let (last', out, went_well) = send last st accepted in sent_then out went_well []
watch_loop last (tick st accepted ∷ ws) =
    let rest = watch_loop (send last st accepted).0 ws in
    sent_then (send last st accepted).1 (send last st accepted).2 rest

-- Watch past its admission: its first send, then the loop.
unfoldable pub watch : Status → Bool → List Wake → List Status
unfolding watch_loop
watch st accepted ws = watch_loop impossible (tick st accepted ∷ ws)
