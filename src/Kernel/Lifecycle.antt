-- ===== src/Kernel/Lifecycle.antt =====
-- kernel/app.go and admin.go: the shutdown of an app, next to the calls of Loopback and the serving of
-- the secondary listeners that may come between any two of its steps. What a mutex or a CompareAndSwap
-- makes one action is one step.
pub mod Release
pub mod Conns
pub mod Hooks
pub mod Done
pub mod Budget
use gortexa.Common.{
  ℕ, zero, suc, String, Bool, true, false, Option, none, some, List, [], ◌∷◌, ◌++◌, ◌+◌, ◌-◌,
  if◌then◌else◌, length, ltb, not, ◌&&◌, ◌||◌,
}
use gortexa.Common.Result.{Result, ok, err}

-- Who has a secondary listener: nobody, serve by its claim, the HTTP server it was handed to; or it is
-- closed.
pub data Owner : Type 0 where
  unowned claimed serving closed : Owner

-- extraListener: whether the caller provided its listener, or serve binds its address; `down` is
-- whether its HTTP server is shut down.
pub record Extra : Type 0 where
  pub provided : Bool
  pub owner : Owner
  pub down : Bool

-- A shutdown hook, as the error that it returns.
abbrev pub Hook : Type 0
Hook = Option String

-- How far the function in shutdownOnce is: `drained` waits for the HTTP server, `waiting` for that of
-- a secondary listener, `conn_closed` for the gRPC server. `marked` holds whether it has a connection
-- to close.
pub data Phase : Type 0 where
  idle drained : Phase
  stopping waiting : ℕ → Phase
  marked : Bool → Phase
  conn_closed flushing finished : Phase

-- The gRPC server: it runs, GracefulStop has returned, or only a goroutine with Stop is launched.
pub data Grpc : Type 0 where
  running halted stop_launched : Grpc

-- App. `past_deadline` is whether the context of Shutdown is done; `dialed` and `live` count the connections that grpc.NewClient made and those not closed.
pub record App : Type 0 where
  pub phase : Phase
  pub draining : Bool
  pub http_down : Bool
  pub extras : List Extra
  pub loopback_init : Bool
  pub loopback_conn : Bool
  pub loopback_closed : Bool
  pub dialed : ℕ
  pub live : ℕ
  pub grpc : Grpc
  pub past_deadline : Bool
  pub hooks_left : List Hook
  pub hooks_run : List Hook
  pub shutdown_err : Option String

pub data LoopbackError : Type 0 where
  shutting_down dial_failed : LoopbackError

loopback_result : Bool → Option LoopbackError
loopback_result true = none
loopback_result false = some dial_failed

-- Loopback; `dials` is whether grpc.NewClient makes a connection.
unfoldable pub loopback : Bool → App → Option LoopbackError × App
unfolding loopback_result
loopback dials a =
    if a.loopback_closed
    then (some shutting_down, a)
    else if a.loopback_init
    then (loopback_result a.loopback_conn, a)
    else (
      loopback_result dials,
      record a {
        loopback_init = true;
        loopback_conn = dials;
        dialed = if dials then suc a.dialed else a.dialed;
        live = if dials then suc a.live else a.live;
      },
    )

unfoldable pub modify_at : ℕ → (Extra → Extra) → List Extra → List Extra
modify_at i f [] = []
modify_at zero f (e ∷ es) = f e ∷ es
modify_at (suc i) f (e ∷ es) = e ∷ modify_at i f es

-- The claim of serve, which the owner that came first refuses.
abbrev pub claim_owner : Owner → Owner
claim_owner unowned = claimed
claim_owner claimed = claimed
claim_owner serving = serving
claim_owner closed = closed

unfoldable pub claim : Extra → Extra
claim e = record e { owner = claim_owner e.owner }

-- http.Server.Serve, which closes the listener of a server that is shut down.
abbrev pub serve_owner : Bool → Owner → Owner
serve_owner down unowned = unowned
serve_owner down claimed = if down then closed else serving
serve_owner down serving = serving
serve_owner down closed = closed

unfoldable pub start_serving : Extra → Extra
start_serving e = record e { owner = serve_owner e.down e.owner }

-- The claim of Shutdown, and http.Server.Shutdown, which closes what its server serves.
abbrev pub stop_owner : Bool → Owner → Owner
stop_owner provided unowned = if provided then closed else unowned
stop_owner provided claimed = claimed
stop_owner provided serving = closed
stop_owner provided closed = closed

unfoldable pub stop_extra : Extra → Extra
stop_extra e = record e { owner = stop_owner e.provided e.owner; down = true }

unfoldable pub first_error : Option String → Hook → Option String
first_error none h = h
first_error (some e) h = some e

-- The hook that is next, if one is left.
unfoldable pub flush : List Hook → App → App
unfolding first_error
flush [] a = record a { phase = finished }
flush (h ∷ hs) a = record a {
  hooks_left = hs;
  hooks_run = a.hooks_run ++ h ∷ [];
  shutdown_err = first_error a.shutdown_err h;
}

-- A wait, which ends when what it waits for is idle, or with the deadline.
unfoldable pub wait_for : Bool → App → App → App
wait_for is_idle next a = if is_idle || a.past_deadline then next else a

unfoldable pub advance_from : Bool → Phase → App → App
unfolding stop_extra flush modify_at wait_for
advance_from is_idle idle a = record a { draining = true; phase = drained }
advance_from is_idle drained a =
    wait_for is_idle (record a { http_down = true; phase = stopping 0 }) a
advance_from is_idle (stopping i) a =
    if ltb i (length a.extras)
    then record a { extras = modify_at i stop_extra a.extras; phase = waiting i }
    else record a { loopback_closed = true; phase = marked a.loopback_conn }
advance_from is_idle (waiting i) a = wait_for is_idle (record a { phase = stopping (suc i) }) a
advance_from is_idle (marked has_conn) a = record a {
  live = if has_conn then a.live - 1 else a.live;
  phase = conn_closed;
}
advance_from is_idle conn_closed a =
    wait_for is_idle
      (record a { grpc = if is_idle then halted else stop_launched; phase = flushing }) a
advance_from is_idle flushing a = flush a.hooks_left a
advance_from is_idle finished a = a

-- The next step of Shutdown, with whether the server that it may wait for is idle.
unfoldable pub advance : Bool → App → App
unfolding advance_from
advance is_idle a = advance_from is_idle a.phase a

-- What may happen next: a call of Loopback, a listener that serve claims or hands over, a step of
-- Shutdown, or that its context is done.
pub data Event : Type 0 where
  call_loopback : Bool → Event
  claim_extra serve_extra : ℕ → Event
  advance_shutdown : Bool → Event
  deadline_passes : Event

unfoldable pub step : Event → App → App
unfolding advance loopback modify_at claim start_serving
step (call_loopback dials) a = (loopback dials a).1
step (claim_extra i) a = record a { extras = modify_at i claim a.extras }
step (serve_extra i) a = record a { extras = modify_at i start_serving a.extras }
step (advance_shutdown is_idle) a = advance is_idle a
step deadline_passes a = record a { past_deadline = true }

unfoldable pub run : List Event → App → App
unfolding step
run [] a = a
run (e ∷ es) a = run es (step e a)

fresh_extra : Bool → Extra
fresh_extra provided = record { provided = provided; owner = unowned; down = false }

unfoldable pub fresh_extras : List Bool → List Extra
unfolding fresh_extra
fresh_extras [] = []
fresh_extras (p ∷ ps) = fresh_extra p ∷ fresh_extras ps

-- The app that New returns, with its secondary listeners and its hooks.
unfoldable pub new_app : List Bool → List Hook → App
unfolding fresh_extras
new_app provided hooks = record {
  phase = idle;
  draining = false;
  http_down = false;
  extras = fresh_extras provided;
  loopback_init = false;
  loopback_conn = false;
  loopback_closed = false;
  dialed = 0;
  live = 0;
  grpc = running;
  past_deadline = false;
  hooks_left = hooks;
  hooks_run = [];
  shutdown_err = none;
}
