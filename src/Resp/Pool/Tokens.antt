-- ===== src/Resp/Pool/Tokens.antt =====
-- internal/resp/client.go: getConn, putConn and Close of concurrent commands, as the steps between
-- which other goroutines run: the send on `sem`, the section under the lock, the dial or the command,
-- the section under the lock of putConn, and the receive from `sem`.
use gortexa.Common.{
  ℕ, true, false, List, [], ◌∷◌, ◌+◌, ◌-◌, ◌≤◌, ◌≡◌, arith, refl, if◌then◌else◌, ltb, length, ap,
  Bool-cases, inl, inr,
}
use gortexa.Resp.Pool.{Conn, Client}

-- The pool with the commands that are under way.
pub record Traffic : Type 0 where
  pub client : Client
  pub arriving : ℕ  -- with a token, before getConn's section under the lock
  pub holding : ℕ  -- with a connection, or dialling one
  pub leaving : ℕ  -- past putConn's section, or without a connection, before the token is given back

pub data Event : Type 0 where
  acquires : Event
  checks_out : Event
  discards : Event
  parks : Conn → Event
  frees : Event
  closes : Event

-- The section of getConn under the lock: past it, the command holds the last parked connection, or
-- it dials.
locked : List Conn → Traffic → Traffic
locked (cn ∷ idle) s = record s {
  client = record s.client { idle = idle };
  arriving = s.arriving - 1;
  holding = s.holding + 1;
}
locked [] s = record s { arriving = s.arriving - 1; holding = s.holding + 1 }

unfoldable pub step : Event → Traffic → Traffic
unfolding locked
step acquires s =
    if ltb s.client.tokens s.client.size
    then record s {
      client = record s.client { tokens = s.client.tokens + 1 };
      arriving = s.arriving + 1;
    }
    else s
step checks_out s =
    if ltb 0 s.arriving
    then (if s.client.closed
        then record s { arriving = s.arriving - 1; leaving = s.leaving + 1 }
        else locked s.client.idle s)
    else s
step discards s =
    if ltb 0 s.holding then record s { holding = s.holding - 1; leaving = s.leaving + 1 } else s
step (parks cn) s =
    let s' = record s { holding = s.holding - 1; leaving = s.leaving + 1 } in
    if ltb 0 s.holding
    then (if s.client.closed
        then s'
        else record s' { client = record s.client { idle = cn ∷ s.client.idle } })
    else s
step frees s =
    if ltb 0 s.leaving
    then record s {
      client = record s.client { tokens = s.client.tokens - 1 };
      leaving = s.leaving - 1;
    }
    else s
step closes s =
    if s.client.closed
    then s
    else record s { client = record s.client { closed = true; idle = [] } }

unfoldable pub run : List Event → Traffic → Traffic
run [] s = s
run (e ∷ es) s = run es (step e s)

-- A new client of a given size, with no command under way.
abbrev pub quiet : ℕ → Traffic
quiet n = record {
  client = record { size = n; tokens = 0; idle = []; closed = false };
  arriving = 0;
  holding = 0;
  leaving = 0;
}

record Inv (n : ℕ) (s : Traffic) : Type 0 where
  fixed : s.client.size ≡ n
  exact : s.client.tokens ≡ s.arriving + s.holding + s.leaving
  bounded : s.client.tokens ≤ n
  live : s.holding + length s.client.idle ≤ n

locked-Inv :
    (n : ℕ) (idle : List Conn) (s : Traffic)
    → s.client.idle ≡ idle
    → 1 ≤ s.arriving
    → Inv n s
    → Inv n (locked idle s)
unfolding locked
locked-Inv n (cn ∷ idle) s h some_arrive inv =
    ground (arith, ap length h, inv.fixed, inv.exact, inv.bounded, inv.live)
locked-Inv n [] s h some_arrive inv =
    ground (arith, ap length h, inv.fixed, inv.exact, inv.bounded, inv.live)

step-Inv : (n : ℕ) (e : Event) (s : Traffic) → Inv n s → Inv n (step e s)
unfolding step
step-Inv n acquires s inv = ground (arith, inv.fixed, inv.exact, inv.bounded, inv.live)
step-Inv n checks_out s inv = elim (Bool-cases (ltb 0 s.arriving)) [
  | inl some_arrive ↦ elim (Bool-cases s.client.closed) [
    | inl shut ↦
        rw (some_arrive, shut)
          (ground (arith, some_arrive, inv.fixed, inv.exact, inv.bounded, inv.live))
    | inr running ↦
        rw (some_arrive, running)
          (locked-Inv n s.client.idle (record s { client = record s.client { closed = false } })
            refl (ground (arith, some_arrive))
            (ground (arith, inv.fixed, inv.exact, inv.bounded, inv.live)))
  ]
  | inr nobody ↦ rw nobody inv
]
step-Inv n discards s inv = ground (arith, inv.fixed, inv.exact, inv.bounded, inv.live)
step-Inv n (parks cn) s inv = ground (arith, inv.fixed, inv.exact, inv.bounded, inv.live)
step-Inv n frees s inv = ground (arith, inv.fixed, inv.exact, inv.bounded, inv.live)
step-Inv n closes s inv = ground (arith, inv.fixed, inv.exact, inv.bounded, inv.live)

run-Inv : (n : ℕ) (es : List Event) (s : Traffic) → Inv n s → Inv n (run es s)
unfolding run
run-Inv n [] s inv = inv
run-Inv n (e ∷ es) s inv = run-Inv n es (step e s) (step-Inv n e s inv)

-- However the steps of concurrent commands interleave, the connections that are open, in use,
-- dialled or parked, are never more than the pool's size, nor are the commands under way, each of
-- which holds exactly one token.
pub run_bounds_live :
    (n : ℕ) (es : List Event)
    → let s = run es (quiet n) in
      (s.holding + length s.client.idle ≤ n)
      × (s.client.tokens ≡ s.arriving + s.holding + s.leaving)
      × (s.client.tokens ≤ n)
run_bounds_live n es =
    let inv = run-Inv n es (quiet n) (ground arith) in (inv.live, inv.exact, inv.bounded)
