-- ===== src/Resp/Pool/Attempts.antt =====
-- internal/resp/client.go: what one command leaves of the pool.
use gortexa.Common.{
  Bool, true, false, List, [], ◌∷◌, ◌+◌, ◌≤◌, ◌<◌, ◌≡◌, arith, refl, ◌||◌, ◌&&◌, not, leb, length,
  All, Bool-cases, inl, inr, false≢true, subst, sym, ap, ◌∙◌,
}
use gortexa.Common.Result.{Result, ok, err}
use gortexa.Resp.Codec.{Arg}
use gortexa.Resp.Pool.{
  Conn, Client, ClientError, Network, Try, get_conn, put_conn, take_conn, free_token, attempt,
  attempt_on, finish_attempt, do_command, roundtrip, is_bad,
}

-- A pool between commands: parked connections and commands in flight together are at most `size`,
-- no parked connection can still be hit by a cancel hook, and a closed pool parks none.
pub record IsSound (c : Client) : Type 0 where
  pub within : c.tokens + length c.idle ≤ c.size
  pub clean : All (λ cn. cn.tainted ≡ false) c.idle
  pub emptied : c.closed ≡ true → length c.idle ≡ 0

-- A pool during a command: `c'` holds one token more than `c`.
record IsBusy (c c' : Client) : Type 0 where
  token : c'.tokens ≡ c.tokens + 1
  size : c'.size ≡ c.size
  sound : IsSound c'

free-IsSound : (c : Client) → IsSound c → IsSound (free_token c)
unfolding free_token
free-IsSound c sound = record {
  within = omega (arith, sound.within);
  clean = sound.clean;
  emptied = sound.emptied;
}

put_conn-IsSound :
    (c c' : Client) (cn : Conn) (bad : Bool)
    → IsBusy c c'
    → IsSound (put_conn cn bad c') × ((put_conn cn bad c').tokens ≡ c.tokens)
unfolding put_conn free_token
put_conn-IsSound c c' cn bad busy = elim (Bool-cases (bad || cn.tainted)) [
  | inl discard ↦ rw discard (free-IsSound c' busy.sound, omega (arith, busy.token))
  | inr healthy ↦ elim (Bool-cases c'.closed) [
    | inl shut ↦
        rw (healthy, shut)
          (
            record {
              within = omega (arith, busy.sound.within);
              clean = busy.sound.clean;
              emptied = λ h. busy.sound.emptied shut;
            },
            omega (arith, busy.token),
          )
    | inr running ↦
        rw (healthy, running)
          (
            record {
              within = omega (arith, busy.sound.within, busy.token);
              clean = (ground (arith, healthy), busy.sound.clean);
              emptied = λ h. absurd (false≢true h);
            },
            omega (arith, busy.token),
          )
  ]
]

-- What getConn leaves when it fails, and when it hands a connection out.
IsTaken : Client → Client × Result ClientError (Conn × Bool) → Type 0
IsTaken c (c', err e) = IsSound c' × (c'.tokens ≡ c.tokens)
IsTaken c (c', ok found) = IsBusy c c'

take_conn-IsTaken :
    (c : Client) (dialled : Result ClientError Conn) (idle : List Conn)
    → c.idle ≡ idle
    → IsSound c
    → c.tokens < c.size
    → c.closed ≡ false
    → IsTaken c (take_conn dialled idle (record c { tokens = c.tokens + 1 }))
unfolding take_conn IsTaken free_token
take_conn-IsTaken c dialled (cn ∷ idle) h sound room running =
    let clean : All (λ cn. cn.tainted ≡ false) (cn ∷ idle) =
      subst (All (λ cn. cn.tainted ≡ false)) h sound.clean in
    let len : length c.idle ≡ length idle + 1 = ap length h ∙ omega arith in
    record {
      token = refl;
      size = refl;
      sound = record {
        within = omega (arith, sound.within, len);
        clean = clean.1;
        emptied = λ shut. absurd (false≢true (sym running ∙ shut));
      };
    }
take_conn-IsTaken c (ok cn) [] h sound room running =
    let len : length c.idle ≡ 0 = ap length h in
    record {
      token = refl;
      size = refl;
      sound = record {
        within = omega (arith, room, len);
        clean = sound.clean;
        emptied = sound.emptied;
      };
    }
take_conn-IsTaken c (err e) [] h sound room running = (
  record { within = omega (arith, sound.within); clean = sound.clean; emptied = sound.emptied },
  omega arith,
)

get_conn-IsTaken :
    (c : Client) (done : Bool) (dialled : Result ClientError Conn)
    → IsSound c
    → IsTaken c (get_conn done dialled c)
unfolding get_conn IsTaken free_token
get_conn-IsTaken c done dialled sound = elim (Bool-cases (done || leb c.size c.tokens)) [
  | inl waits ↦ rw waits (sound, refl)
  | inr goes ↦ elim (Bool-cases c.closed) [
    | inl shut ↦
        rw (goes, shut)
          (
            record {
              within = omega (arith, sound.within);
              clean = sound.clean;
              emptied = λ h. sound.emptied shut;
            },
            omega arith,
          )
    | inr running ↦
        rw (goes, running)
          (take_conn-IsTaken (record c { closed = false }) dialled c.idle refl
            (record {
              within = sound.within;
              clean = sound.clean;
              emptied = λ h. absurd (false≢true h);
            })
            (ground (arith, goes)) refl)
  ]
]

attempt_on-IsSound :
    (args : List Arg) (net : Network) (c : Client) (got : Client × Result ClientError (Conn × Bool))
    → IsTaken c got
    → let c' = (attempt_on args net got).0 in IsSound c' × (c'.tokens ≡ c.tokens)
unfolding attempt_on finish_attempt IsTaken
attempt_on-IsSound args net c (c', err e) taken = taken
attempt_on-IsSound args net c (c', ok (cn, reused)) taken =
    put_conn-IsSound c c' (roundtrip args net cn).0 (is_bad (roundtrip args net cn).1) taken

attempt-IsSound :
    (args : List Arg) (t : Try) (c : Client)
    → IsSound c
    → let c' = (attempt args t c).0 in IsSound c' × (c'.tokens ≡ c.tokens)
unfolding attempt
attempt-IsSound args t c sound =
    attempt_on-IsSound args t.net c (get_conn t.done t.dialled c)
      (get_conn-IsTaken c t.done t.dialled sound)

-- Whatever the network and the context do, a command gives back every token it took, on every path,
-- and leaves a sound pool sound: no connection with a started cancel hook is parked, and parked
-- connections and tokens together stay within the pool's size.
pub do_command-IsSound :
    (args : List Arg) (t : Try) (ctx_done : Bool) (t' : Try) (c : Client)
    → IsSound c
    → let c' = (do_command args t ctx_done t' c).0 in IsSound c' × (c'.tokens ≡ c.tokens)
unfolding do_command
do_command-IsSound args t ctx_done t' c sound =
    let first = attempt-IsSound args t c sound in
    elim (Bool-cases ((attempt args t c).2 && not ctx_done)) [
      | inl again ↦ rw again (
          let second = attempt-IsSound args t' (attempt args t c).0 first.0 in
          (second.0, second.1 ∙ first.1))
      | inr once ↦ rw once first
    ]
