-- ===== src/Kernel/Lifecycle/Release.antt =====
-- kernel/app.go and admin.go: the secondary listeners that Shutdown releases.
use gortexa.Common.{
  ℕ, zero, suc, Bool, true, false, Option, List, [], ◌∷◌, ◌≤◌, ◌≡◌, inl, inr, refl, sym, ap, ◌∙◌,
  subst, length, ltb, arith, All, take, Bool-cases, if_elim, if◌then◌else◌, ◌||◌,
}
use gortexa.Kernel.Lifecycle.{
  Owner, unowned, claimed, serving, closed, Extra, Hook, Phase, idle, drained, stopping, waiting,
  marked, conn_closed, flushing, finished, halted, stop_launched, claim_owner, serve_owner,
  stop_owner, App, LoopbackError, loopback, modify_at, claim, start_serving, stop_extra, flush,
  advance, advance_from, wait_for, Event, call_loopback, claim_extra, serve_extra, advance_shutdown,
  deadline_passes, step,
}

-- A listener that is closed, or that no server will serve: the server of a claimed one is shut down,
-- and one that nobody has is not the caller's.
abbrev IsLetGo : Bool → Bool → Owner → Type 0
IsLetGo provided down unowned = (provided ≡ false) × (down ≡ true)
IsLetGo provided down claimed = down ≡ true
IsLetGo provided down serving = ⊥
IsLetGo provided down closed = down ≡ true

abbrev pub IsReleased : Extra → Type 0
IsReleased e = IsLetGo e.provided e.down e.owner

claim_owner-IsLetGo : (p d : Bool) (o : Owner) → IsLetGo p d o → IsLetGo p d (claim_owner o)
claim_owner-IsLetGo p d unowned h = h.1
claim_owner-IsLetGo p d claimed h = h
claim_owner-IsLetGo p d serving h = absurd h
claim_owner-IsLetGo p d closed h = h

serve_owner-IsLetGo : (p d : Bool) (o : Owner) → IsLetGo p d o → IsLetGo p d (serve_owner d o)
serve_owner-IsLetGo p d unowned h = h
serve_owner-IsLetGo p d claimed h = rw h refl
serve_owner-IsLetGo p d serving h = absurd h
serve_owner-IsLetGo p d closed h = h

stop_owner-IsLetGo : (p : Bool) (o : Owner) → IsLetGo p true (stop_owner p o)
stop_owner-IsLetGo true unowned = refl
stop_owner-IsLetGo false unowned = (refl, refl)
stop_owner-IsLetGo p claimed = refl
stop_owner-IsLetGo p serving = refl
stop_owner-IsLetGo p closed = refl

claim-IsReleased : (e : Extra) → IsReleased e → IsReleased (claim e)
unfolding claim
claim-IsReleased e h = claim_owner-IsLetGo e.provided e.down e.owner h

start_serving-IsReleased : (e : Extra) → IsReleased e → IsReleased (start_serving e)
unfolding start_serving
start_serving-IsReleased e h = serve_owner-IsLetGo e.provided e.down e.owner h

stop_extra-IsReleased : (e : Extra) → IsReleased (stop_extra e)
unfolding stop_extra
stop_extra-IsReleased e = stop_owner-IsLetGo e.provided e.owner

modify_at-All :
    (f : Extra → Extra) (i n : ℕ) (es : List Extra)
    → ((e : Extra) → IsReleased e → IsReleased (f e))
    → All IsReleased (take n es)
    → All IsReleased (take n (modify_at i f es))
unfolding modify_at
modify_at-All f i zero es keeps a = tt
modify_at-All f i (suc n) [] keeps a = tt
modify_at-All f zero (suc n) (e ∷ es) keeps a = (keeps e a.0, a.1)
modify_at-All f (suc i) (suc n) (e ∷ es) keeps a = (a.0, modify_at-All f i n es keeps a.1)

stop-All :
    (i : ℕ) (es : List Extra)
    → All IsReleased (take i es)
    → All IsReleased (take (suc i) (modify_at i stop_extra es))
unfolding modify_at
stop-All zero [] a = tt
stop-All (suc i) [] a = tt
stop-All zero (e ∷ es) a = (stop_extra-IsReleased e, tt)
stop-All (suc i) (e ∷ es) a = (a.0, stop-All i es a.1)

too_long : (n : ℕ) → suc n ≤ 0 → ⊥
too_long n h = omega (arith, h)

pub take-all : (n : ℕ) (es : List Extra) → length es ≤ n → take n es ≡ es
take-all zero [] h = refl
take-all zero (e ∷ es) h = absurd (too_long (length es) h)
take-all (suc n) [] h = refl
take-all (suc n) (e ∷ es) h = ap (λ rest. e ∷ rest) (take-all n es (omega (arith, h)))

pub length-modify_at :
    (f : Extra → Extra) (i : ℕ) (es : List Extra) → length (modify_at i f es) ≡ length es
unfolding modify_at
length-modify_at f i [] = refl
length-modify_at f zero (e ∷ es) = refl
length-modify_at f (suc i) (e ∷ es) = ap suc (length-modify_at f i es)

-- How many secondary listeners are stopped for certain.
abbrev pub stopped : Phase → List Extra → ℕ
stopped idle es = 0
stopped drained es = 0
stopped (stopping i) es = i
stopped (waiting i) es = suc i
stopped (marked c) es = length es
stopped conn_closed es = length es
stopped flushing es = length es
stopped finished es = length es

abbrev pub Stopped : App → Type 0
Stopped a = All IsReleased (take (stopped a.phase a.extras) a.extras)

stopped-modify_at :
    (f : Extra → Extra) (i : ℕ) (p : Phase) (es : List Extra)
    → stopped p (modify_at i f es) ≡ stopped p es
stopped-modify_at f i idle es = refl
stopped-modify_at f i drained es = refl
stopped-modify_at f i (stopping n) es = refl
stopped-modify_at f i (waiting n) es = refl
stopped-modify_at f i (marked c) es = length-modify_at f i es
stopped-modify_at f i conn_closed es = length-modify_at f i es
stopped-modify_at f i flushing es = length-modify_at f i es
stopped-modify_at f i finished es = length-modify_at f i es

Stopped-flush :
    (hs : List Hook) (a : App)
    → a.phase ≡ flushing
    → All IsReleased (take (length a.extras) a.extras)
    → Stopped (flush hs a)
unfolding flush
Stopped-flush [] a same h = h
Stopped-flush (k ∷ hs) a same h = rw same h

-- A wait keeps what holds before and after it.
pub wait_for-keeps :
    (P : App → Type 0) (is_idle : Bool) (next a : App) → P next → P a → P (wait_for is_idle next a)
unfolding wait_for
wait_for-keeps P is_idle next a after before =
    if_elim {A = App} P (is_idle || a.past_deadline) (λ ends. after) (λ waits. before)

Stopped-advance_from :
    (is_idle : Bool) (p : Phase) (a : App)
    → a.phase ≡ p
    → All IsReleased (take (stopped p a.extras) a.extras)
    → Stopped (advance_from is_idle p a)
unfolding advance_from
Stopped-advance_from is_idle idle a same h = tt
Stopped-advance_from is_idle drained a same h =
    wait_for-keeps Stopped is_idle (record a { http_down = true; phase = stopping 0 }) a tt
      (rw same tt)
Stopped-advance_from is_idle (stopping i) a same h = elim (Bool-cases (ltb i (length a.extras))) [
  | inl more ↦ rw more (stop-All i a.extras h)
  | inr done ↦
      let all : take i a.extras ≡ a.extras = take-all i a.extras (ground (arith, done)) in
      let whole : take (length a.extras) a.extras ≡ a.extras =
        take-all (length a.extras) a.extras (omega arith) in
      rw done (subst (All IsReleased) (all ∙ sym whole) h)
]
Stopped-advance_from is_idle (waiting i) a same h =
    wait_for-keeps Stopped is_idle (record a { phase = stopping (suc i) }) a h (rw same h)
Stopped-advance_from is_idle (marked c) a same h = h
Stopped-advance_from is_idle conn_closed a same h =
    wait_for-keeps Stopped is_idle
      (record a { grpc = if is_idle then halted else stop_launched; phase = flushing }) a h
      (rw same h)
Stopped-advance_from is_idle flushing a same h = Stopped-flush a.hooks_left a same h
Stopped-advance_from is_idle finished a same h = rw same h

loopback-extras : (dials : Bool) (a : App) → (loopback dials a).1.extras ≡ a.extras
unfolding loopback
loopback-extras dials a =
    if_elim {A = Option LoopbackError × App} (λ out. out.1.extras ≡ a.extras) a.loopback_closed
      (λ c. refl)
      (λ o.
        if_elim {A = Option LoopbackError × App} (λ out. out.1.extras ≡ a.extras) a.loopback_init
          (λ i. refl) (λ n. refl))

pub loopback-phase : (dials : Bool) (a : App) → (loopback dials a).1.phase ≡ a.phase
unfolding loopback
loopback-phase dials a =
    if_elim {A = Option LoopbackError × App} (λ out. out.1.phase ≡ a.phase) a.loopback_closed
      (λ c. refl)
      (λ o.
        if_elim {A = Option LoopbackError × App} (λ out. out.1.phase ≡ a.phase) a.loopback_init
          (λ i. refl) (λ n. refl))

modify_at-Stopped :
    (f : Extra → Extra) (i : ℕ) (a : App)
    → ((e : Extra) → IsReleased e → IsReleased (f e))
    → Stopped a
    → Stopped (record a { extras = modify_at i f a.extras })
modify_at-Stopped f i a keeps h =
    rw (stopped-modify_at f i a.phase a.extras)
      (modify_at-All f i (stopped a.phase a.extras) a.extras keeps h)

-- Whatever happens, a listener that Shutdown went past stays released.
pub step-Stopped : (e : Event) (a : App) → Stopped a → Stopped (step e a)
unfolding step advance
step-Stopped (call_loopback dials) a h = rw (loopback-phase dials a, loopback-extras dials a) h
step-Stopped (claim_extra i) a h = modify_at-Stopped claim i a claim-IsReleased h
step-Stopped (serve_extra i) a h = modify_at-Stopped start_serving i a start_serving-IsReleased h
step-Stopped (advance_shutdown is_idle) a h = Stopped-advance_from is_idle a.phase a refl h
step-Stopped deadline_passes a h = h
