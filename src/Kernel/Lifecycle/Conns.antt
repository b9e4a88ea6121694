-- ===== src/Kernel/Lifecycle/Conns.antt =====
-- kernel/app.go: the loopback connection, which Shutdown closes and Loopback makes.
use gortexa.Common.{
  ℕ, suc, Bool, true, false, Option, List, [], ◌∷◌, ◌≤◌, ◌≡◌, ◌⊎◌, inl, inr, refl, sym, ◌∙◌,
  if◌then◌else◌, length, ltb, arith, Bool-cases, if_elim, false≢true,
}
use gortexa.Kernel.Lifecycle.{
  Extra, Hook, Phase, idle, drained, stopping, waiting, marked, conn_closed, flushing, finished,
  App, halted, stop_launched, LoopbackError, loopback, modify_at, claim, start_serving, flush,
  advance, advance_from, Event, call_loopback, claim_extra, serve_extra, advance_shutdown,
  deadline_passes, step,
}
use gortexa.Kernel.Lifecycle.Release.{loopback-phase, wait_for-keeps}

-- The loopback connection. Until Shutdown marks it closed there is one, or none yet.
abbrev pub one_if : Bool → ℕ
one_if b = if b then 1 else 0

abbrev pub IsOpen : App → Type 0
IsOpen a =
    (a.loopback_closed ≡ false)
    × (a.live ≡ one_if a.loopback_conn)
    × (a.dialed ≡ one_if a.loopback_conn)
    × ((a.loopback_init ≡ true) ⊎ (a.loopback_conn ≡ false))

abbrev pub IsShut : ℕ → App → Type 0
IsShut n a = (a.loopback_closed ≡ true) × (a.live ≡ n) × (a.dialed ≤ 1)

abbrev pub ConnsAt : Phase → App → Type 0
ConnsAt idle a = IsOpen a
ConnsAt drained a = IsOpen a
ConnsAt (stopping i) a = IsOpen a
ConnsAt (waiting i) a = IsOpen a
ConnsAt (marked c) a = IsShut (one_if c) a
ConnsAt conn_closed a = IsShut 0 a
ConnsAt flushing a = IsShut 0 a
ConnsAt finished a = IsShut 0 a

abbrev pub Conns : App → Type 0
Conns a = ConnsAt a.phase a

Conns-flush : (hs : List Hook) (a : App) → a.phase ≡ flushing → IsShut 0 a → Conns (flush hs a)
unfolding flush
Conns-flush [] a same h = h
Conns-flush (k ∷ hs) a same h = rw same h

Conns-advance_from :
    (is_idle : Bool) (p : Phase) (a : App)
    → a.phase ≡ p
    → ConnsAt p a
    → Conns (advance_from is_idle p a)
unfolding advance_from
Conns-advance_from is_idle idle a same h = h
Conns-advance_from is_idle drained a same h =
    wait_for-keeps Conns is_idle (record a { http_down = true; phase = stopping 0 }) a h (rw same h)
Conns-advance_from is_idle (stopping i) a same h = elim (Bool-cases (ltb i (length a.extras))) [
  | inl more ↦ rw more h
  | inr done ↦ rw done (refl, h.1, ground (arith, h.2))
]
Conns-advance_from is_idle (waiting i) a same h =
    wait_for-keeps Conns is_idle (record a { phase = stopping (suc i) }) a h (rw same h)
Conns-advance_from is_idle (marked true) a same h = (h.0, omega (arith, h.1), h.2)
Conns-advance_from is_idle (marked false) a same h = h
Conns-advance_from is_idle conn_closed a same h =
    wait_for-keeps Conns is_idle
      (record a { grpc = if is_idle then halted else stop_launched; phase = flushing }) a h
      (rw same h)
Conns-advance_from is_idle flushing a same h = Conns-flush a.hooks_left a same h
Conns-advance_from is_idle finished a same h = rw same h

unset :
    (a : App)
    → a.loopback_init ≡ false
    → (a.loopback_init ≡ true) ⊎ (a.loopback_conn ≡ false)
    → a.loopback_conn ≡ false
unset a n (inl i) = absurd (false≢true (sym n ∙ i))
unset a n (inr c) = c

dial-IsOpen :
    (dials : Bool) (a : App)
    → a.loopback_conn ≡ false
    → IsOpen a
    → IsOpen (record a {
      loopback_init = true;
      loopback_conn = dials;
      dialed = if dials then suc a.dialed else a.dialed;
      live = if dials then suc a.live else a.live;
    })
dial-IsOpen true a bare h = (h.0, ground (arith, bare, h.1), ground (arith, bare, h.2), inl refl)
dial-IsOpen false a bare h = (h.0, ground (arith, bare, h.1), ground (arith, bare, h.2), inl refl)

loopback-IsOpen : (dials : Bool) (a : App) → IsOpen a → IsOpen (loopback dials a).1
unfolding loopback
loopback-IsOpen dials a h =
    if_elim {A = Option LoopbackError × App} (λ out. IsOpen out.1) a.loopback_closed
      (λ c. absurd (false≢true (sym h.0 ∙ c)))
      (λ o.
        if_elim {A = Option LoopbackError × App} (λ out. IsOpen out.1) a.loopback_init (λ i. h)
          (λ n. dial-IsOpen dials a (unset a n h.3) h))

loopback-IsShut : (n : ℕ) (dials : Bool) (a : App) → IsShut n a → IsShut n (loopback dials a).1
unfolding loopback
loopback-IsShut n dials a h =
    if_elim {A = Option LoopbackError × App} (λ out. IsShut n out.1) a.loopback_closed (λ c. h)
      (λ o. absurd (false≢true (sym o ∙ h.0)))

loopback-ConnsAt :
    (dials : Bool) (p : Phase) (a : App) → ConnsAt p a → ConnsAt p (loopback dials a).1
loopback-ConnsAt dials idle a h = loopback-IsOpen dials a h
loopback-ConnsAt dials drained a h = loopback-IsOpen dials a h
loopback-ConnsAt dials (stopping i) a h = loopback-IsOpen dials a h
loopback-ConnsAt dials (waiting i) a h = loopback-IsOpen dials a h
loopback-ConnsAt dials (marked c) a h = loopback-IsShut (one_if c) dials a h
loopback-ConnsAt dials conn_closed a h = loopback-IsShut 0 dials a h
loopback-ConnsAt dials flushing a h = loopback-IsShut 0 dials a h
loopback-ConnsAt dials finished a h = loopback-IsShut 0 dials a h

extras-ConnsAt :
    (es : List Extra) (p : Phase) (a : App) → ConnsAt p a → ConnsAt p (record a { extras = es })
extras-ConnsAt es idle a h = h
extras-ConnsAt es drained a h = h
extras-ConnsAt es (stopping i) a h = h
extras-ConnsAt es (waiting i) a h = h
extras-ConnsAt es (marked c) a h = h
extras-ConnsAt es conn_closed a h = h
extras-ConnsAt es flushing a h = h
extras-ConnsAt es finished a h = h

late-ConnsAt : (p : Phase) (a : App) → ConnsAt p a → ConnsAt p (record a { past_deadline = true })
late-ConnsAt idle a h = h
late-ConnsAt drained a h = h
late-ConnsAt (stopping i) a h = h
late-ConnsAt (waiting i) a h = h
late-ConnsAt (marked c) a h = h
late-ConnsAt conn_closed a h = h
late-ConnsAt flushing a h = h
late-ConnsAt finished a h = h

pub step-Conns : (e : Event) (a : App) → Conns a → Conns (step e a)
unfolding step advance
step-Conns (call_loopback dials) a h =
    rw (loopback-phase dials a) (loopback-ConnsAt dials a.phase a h)
step-Conns (claim_extra i) a h = extras-ConnsAt (modify_at i claim a.extras) a.phase a h
step-Conns (serve_extra i) a h = extras-ConnsAt (modify_at i start_serving a.extras) a.phase a h
step-Conns (advance_shutdown is_idle) a h = Conns-advance_from is_idle a.phase a refl h
step-Conns deadline_passes a h = late-ConnsAt a.phase a h
