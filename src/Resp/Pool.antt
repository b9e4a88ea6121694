-- ===== src/Resp/Pool.antt =====
-- internal/resp/client.go: the client over a bounded pool of connections. The network and the
-- caller's context are parameters: a `Try` says what they do during one attempt.
pub mod Attempts
pub mod Retry
pub mod Tokens
mod Examples
use gortexa.Common.{
  ℕ, zero, suc, Bool, true, false, Option, none, some, List, [], ◌∷◌, ◌++◌, ◌+◌, ◌-◌, ◌/◌, ◌&&◌,
  ◌||◌, not, if◌then◌else◌, ltb, leb,
}
use gortexa.Common.Int.{ℤ, pos, negsuc, is_positive, pos_part}
use gortexa.Common.Result.{Result, ok, err}
use gortexa.Resp.Codec.{
  Arg, text, int64, write_command, ReplyError, Reply, string, integer, server_error, nil,
  read_reply,
}

-- Options, less the address and the credentials.
pub record Options : Type 0 where
  pub pool_size : ℤ
  pub dial_timeout : ℤ
  pub read_timeout : ℤ
  pub write_timeout : ℤ

-- A duration, in nanoseconds, or its default where it is zero.
unfoldable pub or_default : ℤ → ℕ → ℤ
or_default (pos zero) d = pos d
or_default (pos (suc n)) d = pos (suc n)
or_default (negsuc n) d = negsuc n

-- NewClient's options: a negative timeout stays, and disables that deadline.
unfoldable pub effective : Options → Options
unfolding or_default
effective o = record {
  pool_size = if is_positive o.pool_size then o.pool_size else pos 10;
  dial_timeout = or_default o.dial_timeout 5000000000;
  read_timeout = or_default o.read_timeout 3000000000;
  write_timeout = or_default o.write_timeout 3000000000;
}

-- deadline: `none` is the zero time, `ctx` the caller's deadline.
unfoldable pub deadline : ℕ → ℤ → Option ℕ → Option ℕ
deadline now timeout none = if is_positive timeout then some (now + pos_part timeout) else none
deadline now timeout (some cd) =
    if is_positive timeout && leb (now + pos_part timeout) cd
    then some (now + pos_part timeout)
    else some cd

-- conn: `unread` are the bytes in its bufio.Reader.
pub record Conn : Type 0 where
  pub number : ℕ
  pub unread : List ℕ
  pub tainted : Bool

pub data ClientError : Type 0 where
  cancelled pool_closed timed_out broken err_nil unexpected_reply unsupported_argument : ClientError
  server : List ℕ → ClientError
  protocol : ReplyError → ClientError

-- Client: the tokens in `sem`, and the parked connections, the last parked one first.
pub record Client : Type 0 where
  pub size : ℕ
  pub tokens : ℕ
  pub idle : List Conn
  pub closed : Bool

-- NewClient
unfoldable pub new_client : Options → Client
unfolding effective
new_client o = record {
  size = pos_part (effective o).pool_size;
  tokens = 0;
  idle = [];
  closed = false;
}

-- What the network does during one command: the error, if any, of each call before the read, the
-- bytes that arrive or the error of the read, and whether the cancel hook had started at the end.
pub record Network : Type 0 where
  pub arm_write : Option ClientError
  pub before_write : Option ClientError
  pub flush : Option ClientError
  pub arm_read : Option ClientError
  pub before_read : Option ClientError
  pub received : Result ClientError (List ℕ)
  pub hook_fired : Bool

-- The end of roundtrip: a server error is an error, what was not read stays in the buffer.
unfoldable pub reply_on :
    Conn → Result ReplyError (Reply × List ℕ) → Conn × Result ClientError Reply
reply_on cn (err e) = (cn, err (protocol e))
reply_on cn (ok (server_error e, rest)) = (record cn { unread = rest }, err (server e))
reply_on cn (ok (string s, rest)) = (record cn { unread = rest }, ok (string s))
reply_on cn (ok (integer z, rest)) = (record cn { unread = rest }, ok (integer z))
reply_on cn (ok (nil, rest)) = (record cn { unread = rest }, ok nil)

unfoldable pub receive : Conn → Result ClientError (List ℕ) → Conn × Result ClientError Reply
unfolding reply_on
receive cn (err e) = (cn, err e)
receive cn (ok bs) = reply_on cn (read_reply (cn.unread ++ bs))

unfoldable pub first_error : List (Option ClientError) → Option ClientError
first_error [] = none
first_error (none ∷ es) = first_error es
first_error (some e ∷ es) = some e

unfoldable pub exchange :
    Option ClientError → Conn → Result ClientError (List ℕ) → Conn × Result ClientError Reply
unfolding receive
exchange (some e) cn received = (cn, err e)
exchange none cn received = receive cn received

-- roundtrip: the calls in their order, the first error ending it.
unfoldable pub roundtrip : List Arg → Network → Conn → Conn × Result ClientError Reply
unfolding exchange first_error
roundtrip args net cn =
    let cn' = record cn { tainted = cn.tainted || net.hook_fired } in
    exchange
      (first_error (
        net.arm_write
        ∷ net.before_write
        ∷ (if (write_command args).1 then none else some unsupported_argument)
        ∷ net.flush
        ∷ net.arm_read
        ∷ net.before_read
        ∷ []))
      cn' net.received

free_token : Client → Client
free_token c = record c { tokens = c.tokens - 1 }

-- The end of getConn: the last parked connection, or a dialled one. `true` says it was parked.
unfoldable pub take_conn :
    Result ClientError Conn → List Conn → Client → Client × Result ClientError (Conn × Bool)
unfolding free_token
take_conn dialled (cn ∷ idle) c = (record c { idle = idle }, ok (cn, true))
take_conn (ok cn) [] c = (c, ok (cn, false))
take_conn (err e) [] c = (free_token c, err e)

-- getConn: with no token left it waits until the context is done.
unfoldable pub get_conn :
    Bool → Result ClientError Conn → Client → Client × Result ClientError (Conn × Bool)
unfolding take_conn free_token
get_conn done dialled c =
    let c' = record c { tokens = c.tokens + 1 } in
    if done || leb c.size c.tokens
    then (c, err cancelled)
    else if c.closed
    then (free_token c', err pool_closed)
    else take_conn dialled c.idle c'

-- putConn
unfoldable pub put_conn : Conn → Bool → Client → Client
unfolding free_token
put_conn cn bad c =
    if bad || cn.tainted
    then free_token c
    else if c.closed
    then free_token c
    else free_token (record c { idle = cn ∷ c.idle })

-- A protocol or I/O error, which leaves the connection in an unknown state.
unfoldable pub is_bad {ℓ} : {A : Type ℓ} → Result ClientError A → Bool
is_bad (ok a) = false
is_bad (err (server e)) = false
is_bad (err e) = true

-- isTimeout
unfoldable pub is_timeout {ℓ} : {A : Type ℓ} → Result ClientError A → Bool
is_timeout (err timed_out) = true
is_timeout (ok a) = false
is_timeout (err e) = false

-- What the world does during one attempt: whether the context ends its wait, what a dial gives, and
-- the network. `roundtrip` takes the connection that the attempt has checked out.
pub record Try : Type 0 where
  pub done : Bool
  pub dialled : Result ClientError Conn
  pub net : Network

unfoldable pub finish_attempt :
    Bool → Client → Conn × Result ClientError Reply → Client × Result ClientError Reply × Bool
unfolding put_conn is_bad is_timeout
finish_attempt reused c (cn, reply) =
    (put_conn cn (is_bad reply) c, reply, is_bad reply && reused && not (is_timeout reply))

unfoldable pub attempt_on :
    List Arg
    → Network
    → Client × Result ClientError (Conn × Bool)
    → Client × Result ClientError Reply × Bool
unfolding finish_attempt roundtrip
attempt_on args net (c, err e) = (c, err e, false)
attempt_on args net (c, ok (cn, reused)) = finish_attempt reused c (roundtrip args net cn)

-- attempt: the reply and whether a retry may help.
unfoldable pub attempt : List Arg → Try → Client → Client × Result ClientError Reply × Bool
unfolding attempt_on get_conn
attempt args t c = attempt_on args t.net (get_conn t.done t.dialled c)

-- Do; `ctx_done` is the context after the first attempt.
unfoldable pub do_command : List Arg → Try → Bool → Try → Client → Client × Result ClientError Reply
do_command args t ctx_done t' c =
    let (c', reply, retry) = attempt args t c in
    if retry && not ctx_done
    then (let (c'', reply', again) = attempt args t' c' in (c'', reply'))
    else (c', reply)

-- Get
unfoldable pub get_args : List ℕ → List Arg
get_args key = text (b'G' ∷ b'E' ∷ b'T' ∷ []) ∷ text key ∷ []

unfoldable pub get_reply : Result ClientError Reply → Result ClientError (List ℕ)
get_reply (err e) = err e
get_reply (ok nil) = err err_nil
get_reply (ok (string s)) = ok s
get_reply (ok (integer z)) = err unexpected_reply
get_reply (ok (server_error e)) = err unexpected_reply

-- The milliseconds of Set, for a positive duration in nanoseconds.
unfoldable pub px : ℕ → ℕ
px ttl = if leb (ttl / 1000000) 0 then 1 else ttl / 1000000

-- Set
unfoldable pub set_args : List ℕ → List ℕ → ℤ → List Arg
unfolding px
set_args key value ttl =
    let plain = text (b'S' ∷ b'E' ∷ b'T' ∷ []) ∷ text key ∷ text value ∷ [] in
    if is_positive ttl
    then plain ++ text (b'P' ∷ b'X' ∷ []) ∷ int64 (pos (px (pos_part ttl))) ∷ []
    else plain

-- Del
unfoldable pub del_args : List ℕ → List Arg
del_args key = text (b'D' ∷ b'E' ∷ b'L' ∷ []) ∷ text key ∷ []

-- Ping
unfoldable pub ping_args : List Arg
ping_args = text (b'P' ∷ b'I' ∷ b'N' ∷ b'G' ∷ []) ∷ []

-- Close
unfoldable pub close : Client → Client
close c = if c.closed then c else record c { closed = true; idle = [] }
