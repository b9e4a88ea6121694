-- ===== src/Resp/Pool/Retry.antt =====
-- internal/resp/client.go: when Do tries a command again.
use gortexa.Common.{
  ℕ, Bool, true, false, List, [], ◌∷◌, ◌+◌, ◌≡◌, ◌≢◌, arith, refl, ◌||◌, ◌&&◌, not, leb, ltb,
  length, if◌then◌else◌, Bool-cases, inl, inr, false≢true, sym, ap, ◌∙◌,
}
use gortexa.Common.Result.{Result, ok, err}
use gortexa.Resp.Codec.{Arg, Reply}
use gortexa.Resp.Pool.{
  Conn, Client, ClientError, timed_out, server, protocol, cancelled, pool_closed, broken, err_nil,
  unexpected_reply, unsupported_argument, Network, Try, get_conn, put_conn, take_conn, free_token,
  attempt, attempt_on, finish_attempt, do_command, roundtrip, is_bad, is_timeout,
}

and_and-true : (a b c : Bool) → (a && b && not c) ≡ true → (a ≡ true) × (b ≡ true) × (c ≡ false)
and_and-true a b c h = ground (arith, h)

put_bad : (cn : Conn) (bad : Bool) (c : Client) → bad ≡ true → put_conn cn bad c ≡ free_token c
unfolding put_conn
put_bad cn bad c h = rw h refl

is_timeout-differs : (r : Result ClientError Reply) → is_timeout r ≡ false → r ≢ err timed_out
unfolding is_timeout
is_timeout-differs r h same = false≢true (sym h ∙ ap is_timeout same)

-- An attempt that may be repeated.
retry-from :
    (args : List Arg) (net : Network) (c : Client) (cn : Conn) (reused : Bool)
    → (attempt_on args net (c, ok (cn, reused))).2 ≡ true
    → (reused ≡ true)
      × (is_bad (attempt_on args net (c, ok (cn, reused))).1 ≡ true)
      × ((attempt_on args net (c, ok (cn, reused))).1 ≢ err timed_out)
      × ((attempt_on args net (c, ok (cn, reused))).0 ≡ free_token c)
unfolding attempt_on finish_attempt
retry-from args net c cn reused h =
    let r = (roundtrip args net cn).1 in
    let (bad, parked, timely) = and_and-true (is_bad r) reused (is_timeout r) h in
    (parked, bad, is_timeout-differs r timely, put_bad (roundtrip args net cn).0 (is_bad r) c bad)

-- A connection that was parked was the last one parked.
CameFrom : Client → Client × Result ClientError (Conn × Bool) → Type 0
CameFrom c (c', err e) = Unit
CameFrom c (c', ok (cn, false)) = Unit
CameFrom c (c', ok (cn, true)) = c.idle ≡ cn ∷ c'.idle

take_conn-CameFrom :
    (dialled : Result ClientError Conn) (idle : List Conn) (c : Client)
    → c.idle ≡ idle
    → CameFrom c (take_conn dialled idle (record c { tokens = c.tokens + 1 }))
unfolding CameFrom take_conn
take_conn-CameFrom dialled (cn ∷ idle) c h = h
take_conn-CameFrom (ok cn) [] c h = tt
take_conn-CameFrom (err e) [] c h = tt

get_conn-CameFrom :
    (c : Client) (done : Bool) (dialled : Result ClientError Conn)
    → CameFrom c (get_conn done dialled c)
unfolding CameFrom get_conn
get_conn-CameFrom c done dialled = elim (Bool-cases (done || leb c.size c.tokens)) [
  | inl waits ↦ rw waits tt
  | inr goes ↦ elim (Bool-cases c.closed) [
    | inl shut ↦ rw (goes, shut) tt
    | inr running ↦
        rw (goes, running) (take_conn-CameFrom dialled c.idle (record c { closed = false }) refl)
  ]
]

not_again :
    (args : List Arg) (net : Network) (c : Client) (e : ClientError)
    → (attempt_on args net (c, err e)).2 ≢ true
unfolding attempt_on
not_again args net c e h = false≢true h

attempt_on-retry :
    (args : List Arg) (net : Network) (c : Client) (got : Client × Result ClientError (Conn × Bool))
    → CameFrom c got
    → (attempt_on args net got).2 ≡ true
    → let (c', reply, again) = attempt_on args net got in
      (is_bad reply ≡ true) × (reply ≢ err timed_out) × ((cn : Conn) × (c.idle ≡ cn ∷ c'.idle))
unfolding CameFrom free_token
attempt_on-retry args net c (c', err e) from h = absurd (not_again args net c' e h)
attempt_on-retry args net c (c', ok (cn, false)) from h =
    absurd (false≢true (retry-from args net c' cn false h).0)
attempt_on-retry args net c (c', ok (cn, true)) from h =
    let (parked, bad, timely, gone) = retry-from args net c' cn true h in
    (bad, timely, (cn, from ∙ ap (λ q. cn ∷ q.idle) (sym gone)))

attempt-retry :
    (args : List Arg) (t : Try) (c : Client)
    → (attempt args t c).2 ≡ true
    → (cn : Conn) × (c.idle ≡ cn ∷ (attempt args t c).0.idle)
unfolding attempt
attempt-retry args t c h =
    (attempt_on-retry args t.net c (get_conn t.done t.dialled c)
      (get_conn-CameFrom c t.done t.dialled) h).2

-- Whether an attempt gets a parked connection: its context does not end its wait for a token, the
-- client is open, and one is parked.
abbrev pub takes_parked : Try → Client → Bool
takes_parked t c = not t.done && (ltb c.tokens c.size && (not c.closed && ltb 0 (length c.idle)))

-- Whether an attempt ended with an error of the transport or the protocol: neither a reply, nor an
-- error that the server sent, nor a timeout.
abbrev pub went_wrong : Result ClientError Reply → Bool
went_wrong (ok reply) = false
went_wrong (err (server e)) = false
went_wrong (err timed_out) = false
went_wrong (err (protocol e)) = true
went_wrong (err cancelled) = true
went_wrong (err pool_closed) = true
went_wrong (err broken) = true
went_wrong (err err_nil) = true
went_wrong (err unexpected_reply) = true
went_wrong (err unsupported_argument) = true

went_wrong-flag :
    (r : Result ClientError Reply) (reused : Bool)
    → (is_bad r && reused && not (is_timeout r)) ≡ (reused && went_wrong r)
unfolding is_bad is_timeout
went_wrong-flag (ok reply) true = refl
went_wrong-flag (ok reply) false = refl
went_wrong-flag (err (server e)) true = refl
went_wrong-flag (err (server e)) false = refl
went_wrong-flag (err timed_out) true = refl
went_wrong-flag (err timed_out) false = refl
went_wrong-flag (err (protocol e)) true = refl
went_wrong-flag (err (protocol e)) false = refl
went_wrong-flag (err cancelled) true = refl
went_wrong-flag (err cancelled) false = refl
went_wrong-flag (err pool_closed) true = refl
went_wrong-flag (err pool_closed) false = refl
went_wrong-flag (err broken) true = refl
went_wrong-flag (err broken) false = refl
went_wrong-flag (err err_nil) true = refl
went_wrong-flag (err err_nil) false = refl
went_wrong-flag (err unexpected_reply) true = refl
went_wrong-flag (err unexpected_reply) false = refl
went_wrong-flag (err unsupported_argument) true = refl
went_wrong-flag (err unsupported_argument) false = refl

-- Whether getConn handed out a parked connection.
is_reused : Client × Result ClientError (Conn × Bool) → Bool
is_reused (c, err e) = false
is_reused (c, ok (cn, reused)) = reused

attempt_on-flag :
    (args : List Arg) (net : Network) (got : Client × Result ClientError (Conn × Bool))
    → (attempt_on args net got).2 ≡ (is_reused got && went_wrong (attempt_on args net got).1)
unfolding attempt_on finish_attempt is_reused
attempt_on-flag args net (c, err e) = refl
attempt_on-flag args net (c, ok (cn, reused)) = went_wrong-flag (roundtrip args net cn).1 reused

take_conn-is_reused :
    (dialled : Result ClientError Conn) (idle : List Conn) (c : Client)
    → is_reused (take_conn dialled idle c) ≡ ltb 0 (length idle)
unfolding is_reused take_conn
take_conn-is_reused dialled (cn ∷ idle) c = ground arith
take_conn-is_reused (ok cn) [] c = refl
take_conn-is_reused (err e) [] c = refl

get_conn-is_reused :
    (t : Try) (c : Client) → is_reused (get_conn t.done t.dialled c) ≡ takes_parked t c
unfolding is_reused get_conn
get_conn-is_reused t c = elim (Bool-cases (t.done || leb c.size c.tokens)) [
  | inl waits ↦ rw waits (sym (waiting t.done c.closed c.size c.tokens (length c.idle) waits))
  | inr goes ↦ elim (Bool-cases c.closed) [
    | inl shut ↦
        rw (goes, shut) (sym (closing t.done (ltb c.tokens c.size) (ltb 0 (length c.idle))))
    | inr running ↦
        rw (goes, running)
          (take_conn-is_reused t.dialled c.idle (record c { tokens = c.tokens + 1; closed = false })
            ∙ sym (going t.done c.size c.tokens (ltb 0 (length c.idle)) goes))
  ]
]
  where
    waiting :
        (done shut : Bool) (size tokens parked : ℕ)
        → (done || leb size tokens) ≡ true
        → (not done && (ltb tokens size && (not shut && ltb 0 parked))) ≡ false
    waiting done shut size tokens parked h = ground (arith, h)

    closing : (done room parked : Bool) → (not done && (room && (false && parked))) ≡ false
    closing done room parked = ground arith

    going :
        (done : Bool) (size tokens : ℕ) (parked : Bool)
        → (done || leb size tokens) ≡ false
        → (not done && (ltb tokens size && (true && parked))) ≡ parked
    going done size tokens parked h = ground (arith, h)

attempt-flag :
    (args : List Arg) (t : Try) (c : Client)
    → (attempt args t c).2 ≡ (takes_parked t c && went_wrong (attempt args t c).1)
unfolding attempt
attempt-flag args t c =
    attempt_on-flag args t.net (get_conn t.done t.dialled c)
    ∙ ap (λ b. b && went_wrong (attempt_on args t.net (get_conn t.done t.dialled c)).1)
        (get_conn-is_reused t c)

-- Do makes a second attempt exactly when the first had a parked connection and it failed on it,
-- neither by a server error nor by a timeout, and the context is not done; that connection has then
-- left the pool, and the answer is that of the second attempt, which is the last. Otherwise the answer
-- is that of the first.
pub do_command-retry :
    (args : List Arg) (t : Try) (ctx_done : Bool) (t' : Try) (c : Client)
    → let (first, reply, again) = attempt args t c in
      let (second, reply', again') = attempt args t' first in
      if (takes_parked t c && went_wrong reply) && not ctx_done
      then (do_command args t ctx_done t' c ≡ (second, reply'))
        × ((cn : Conn) × (c.idle ≡ cn ∷ first.idle))
      else do_command args t ctx_done t' c ≡ (first, reply)
unfolding do_command
do_command-retry args t ctx_done t' c =
    let flag = attempt-flag args t c in
    elim (Bool-cases ((attempt args t c).2 && not ctx_done)) [
      | inl again ↦
          rw (sym (ap (λ b. b && not ctx_done) flag) ∙ again, again)
            (refl, attempt-retry args t c (ground (arith, again)))
      | inr once ↦ rw (sym (ap (λ b. b && not ctx_done) flag) ∙ once, once) refl
    ]
