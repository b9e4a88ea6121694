-- ===== src/Resp/Pool/Examples.antt =====
-- internal/resp/client.go at a concrete pool.
use gortexa.Common.{
  if◌then◌else◌, ◌&&◌, ℕ, true, false, none, List, [], ◌∷◌, ◌+◌, ◌≤◌, ◌≡◌, arith, refl, length,
}
use gortexa.Common.Result.{ok, err}
use gortexa.Resp.Codec.{Arg, write_command, write_args, arg_bytes}
use gortexa.Resp.Pool.{
  Conn, Client, broken, Network, Try, get_args, attempt, do_command, is_bad, attempt_on, get_conn,
  take_conn, finish_attempt, roundtrip, exchange, first_error, receive, is_timeout,
}
use gortexa.Resp.Pool.Attempts.{IsSound, do_command-IsSound}
use gortexa.Resp.Pool.Retry.{takes_parked, went_wrong, do_command-retry}
use gortexa.Resp.Pool.Tokens.{acquires, checks_out, parks, frees, run, quiet, run_bounds_live}

abbrev conn : ℕ → Conn
conn n = record { number = n; unread = []; tainted = false }

-- A network that answers, and one on which the peer has closed the connection.
abbrev answering : Network
answering = record {
  arm_write = none;
  before_write = none;
  flush = none;
  arm_read = none;
  before_read = none;
  received = ok (b'+' ∷ b'O' ∷ b'K' ∷ 13 ∷ 10 ∷ []);
  hook_fired = false;
}

abbrev reset_by_peer : Network
reset_by_peer = record answering { received = err broken }

abbrev stale : Try
stale = record { done = false; dialled = err broken; net = reset_by_peer }

abbrev fresh : Try
fresh = record { done = false; dialled = ok (conn 2); net = answering }

abbrev pool : Client
pool = record { size = 2; tokens = 0; idle = conn 1 ∷ []; closed = false }

abbrev command : List Arg
command = get_args (b'k' ∷ [])

do_command-IsSound_example :
    let c' = (do_command command stale false fresh pool).0 in IsSound c' × (c'.tokens ≡ 0)
do_command-IsSound_example =
    do_command-IsSound command stale false fresh pool
      (record { within = omega arith; clean = (refl, tt); emptied = λ h. cc })

do_command-retry_example :
    let (first, reply, again) = attempt command stale pool in
    let (second, reply', again') = attempt command fresh first in
    if (takes_parked stale pool && went_wrong reply) && true
    then (do_command command stale false fresh pool ≡ (second, reply'))
      × ((cn : Conn) × (pool.idle ≡ cn ∷ first.idle))
    else do_command command stale false fresh pool ≡ (first, reply)
do_command-retry_example = do_command-retry command stale false fresh pool

-- The second attempt is made, on a new connection.
stale-is_retried :
    ((takes_parked stale pool && went_wrong (attempt command stale pool).1) && true) ≡ true
unfolding attempt attempt_on get_conn take_conn finish_attempt roundtrip exchange first_error
    receive is_bad is_timeout get_args write_command write_args arg_bytes
stale-is_retried = refl

run_bounds_live_example :
    let s =
      run (acquires ∷ checks_out ∷ acquires ∷ parks (conn 1) ∷ checks_out ∷ frees ∷ []) (quiet 2) in
    (s.holding + length s.client.idle ≤ 2)
    × (s.client.tokens ≡ s.arriving + s.holding + s.leaving)
    × (s.client.tokens ≤ 2)
run_bounds_live_example =
    run_bounds_live 2 (acquires ∷ checks_out ∷ acquires ∷ parks (conn 1) ∷ checks_out ∷ frees ∷ [])
