-- ===== src/Kernel/Lifecycle/Hooks.antt =====
-- kernel/app.go: the shutdown hooks and the servers that Shutdown stops.
use gortexa.Common.{
  String, Bool, true, false, Option, none, List, [], ◌∷◌, ◌++◌, ◌≡◌, refl, sym, ap, ◌∙◌, subst,
  length, ltb, if_elim, suc, inl, inr, ◌⊎◌, ◌||◌, if◌then◌else◌,
}
use gortexa.Kernel.Lifecycle.{
  Hook, Phase, idle, drained, stopping, waiting, marked, conn_closed, flushing, finished, App, Grpc,
  halted, stop_launched, LoopbackError, loopback, first_error, flush, advance, advance_from,
  wait_for, Event, call_loopback, claim_extra, serve_extra, advance_shutdown, deadline_passes, step,
}
use gortexa.Kernel.Lifecycle.Release.{wait_for-keeps}

-- The first error of some hooks.
abbrev pub first_of : Option String → List Hook → Option String
first_of e [] = e
first_of e (h ∷ hs) = first_of (first_error e h) hs

first_of-snoc :
    (e : Option String) (hs : List Hook) (h : Hook)
    → first_of e (hs ++ h ∷ []) ≡ first_error (first_of e hs) h
first_of-snoc e [] h = refl
first_of-snoc e (k ∷ hs) h = first_of-snoc (first_error e k) hs h

append-snoc : (xs ys : List Hook) (h : Hook) → (xs ++ h ∷ []) ++ ys ≡ xs ++ h ∷ ys
append-snoc [] ys h = refl
append-snoc (x ∷ xs) ys h = ap (λ rest. x ∷ rest) (append-snoc xs ys h)

-- The gRPC server has stopped, or the deadline has passed and its Stop is launched.
abbrev pub IsHalted : Grpc → Bool → Type 0
IsHalted g past = (g ≡ halted) ⊎ ((g ≡ stop_launched) × (past ≡ true))

-- What Shutdown stopped so far, and that a finished one has no hook left.
abbrev pub FlagsAt : Phase → Bool → Bool → Grpc → Bool → List Hook → Type 0
FlagsAt idle d s g past hs = Unit
FlagsAt drained d s g past hs = d ≡ true
FlagsAt (stopping i) d s g past hs = (d ≡ true) × (s ≡ true)
FlagsAt (waiting i) d s g past hs = (d ≡ true) × (s ≡ true)
FlagsAt (marked c) d s g past hs = (d ≡ true) × (s ≡ true)
FlagsAt conn_closed d s g past hs = (d ≡ true) × (s ≡ true)
FlagsAt flushing d s g past hs = (d ≡ true) × (s ≡ true) × IsHalted g past
FlagsAt finished d s g past hs = (d ≡ true) × (s ≡ true) × IsHalted g past × (hs ≡ [])

abbrev pub Flags : Phase → App → Type 0
Flags p a = FlagsAt p a.draining a.http_down a.grpc a.past_deadline a.hooks_left

late-IsHalted : (g : Grpc) (past : Bool) → IsHalted g past → IsHalted g true
late-IsHalted g past (inl h) = inl h
late-IsHalted g past (inr (l, p)) = inr (l, refl)

late-FlagsAt :
    (p : Phase) (d s : Bool) (g : Grpc) (past : Bool) (hs : List Hook)
    → FlagsAt p d s g past hs
    → FlagsAt p d s g true hs
late-FlagsAt idle d s g past hs h = h
late-FlagsAt drained d s g past hs h = h
late-FlagsAt (stopping i) d s g past hs h = h
late-FlagsAt (waiting i) d s g past hs h = h
late-FlagsAt (marked c) d s g past hs h = h
late-FlagsAt conn_closed d s g past hs h = h
late-FlagsAt flushing d s g past hs (x, y, h) = (x, y, late-IsHalted g past h)
late-FlagsAt finished d s g past hs (x, y, h, z) = (x, y, late-IsHalted g past h, z)

waited-IsHalted :
    (is_idle past : Bool)
    → (is_idle || past) ≡ true
    → IsHalted (if is_idle then halted else stop_launched) past
waited-IsHalted true past h = inl refl
waited-IsHalted false past h = inr (refl, h)

abbrev pub Hooks : List Hook → App → Type 0
Hooks hooks a =
    (a.hooks_run ++ a.hooks_left ≡ hooks)
    × (a.shutdown_err ≡ first_of none a.hooks_run)
    × Flags a.phase a

module _ (hooks : List Hook) where
  Hooks-flush :
      (hs : List Hook) (a : App)
      → a.hooks_left ≡ hs
      → a.phase ≡ flushing
      → Hooks hooks a
      → Hooks hooks (flush hs a)
  unfolding flush
  Hooks-flush [] a left same (all, e, flags) =
      let (d, s, g) = subst (λ p. Flags p a) same flags in (all, e, (d, s, g, left))
  Hooks-flush (h ∷ hs) a left same (all, e, flags) = (
    append-snoc a.hooks_run hs h ∙ ap (λ l. a.hooks_run ++ l) (sym left) ∙ all,
    ap (λ x. first_error x h) e ∙ sym (first_of-snoc none a.hooks_run h),
    rw same (subst (λ p. Flags p a) same flags),
  )

  Hooks-advance_from :
      (is_idle : Bool) (p : Phase) (a : App)
      → a.phase ≡ p
      → Hooks hooks a
      → Hooks hooks (advance_from is_idle p a)
  unfolding advance_from wait_for
  Hooks-advance_from is_idle idle a same (all, e, flags) = (all, e, refl)
  Hooks-advance_from is_idle drained a same (all, e, flags) =
      wait_for-keeps (Hooks hooks) is_idle (record a { http_down = true; phase = stopping 0 }) a
        (all, e, (subst (λ p. Flags p a) same flags, refl)) (all, e, flags)
  Hooks-advance_from is_idle (stopping i) a same (all, e, flags) =
      let kept = subst (λ p. Flags p a) same flags in
      if_elim {A = App} (Hooks hooks) (ltb i (length a.extras)) (λ more. (all, e, kept))
        (λ done. (all, e, kept))
  Hooks-advance_from is_idle (waiting i) a same (all, e, flags) =
      wait_for-keeps (Hooks hooks) is_idle (record a { phase = stopping (suc i) }) a
        (all, e, subst (λ p. Flags p a) same flags) (all, e, flags)
  Hooks-advance_from is_idle (marked c) a same (all, e, flags) =
      (all, e, subst (λ p. Flags p a) same flags)
  Hooks-advance_from is_idle conn_closed a same (all, e, flags) =
      let (d, s) = subst (λ p. Flags p a) same flags in
      if_elim {A = App} (Hooks hooks) (is_idle || a.past_deadline)
        (λ ends. (all, e, (d, s, waited-IsHalted is_idle a.past_deadline ends)))
        (λ waits. (all, e, flags))
  Hooks-advance_from is_idle flushing a same h = Hooks-flush a.hooks_left a refl same h
  Hooks-advance_from is_idle finished a same h = h

  loopback-Hooks : (dials : Bool) (a : App) → Hooks hooks a → Hooks hooks (loopback dials a).1
  unfolding loopback
  loopback-Hooks dials a h =
      if_elim {A = Option LoopbackError × App} (λ out. Hooks hooks out.1) a.loopback_closed (λ c. h)
        (λ o.
          if_elim {A = Option LoopbackError × App} (λ out. Hooks hooks out.1) a.loopback_init
            (λ i. h) (λ n. h))

  pub step-Hooks : (e : Event) (a : App) → Hooks hooks a → Hooks hooks (step e a)
  unfolding step advance
  step-Hooks (call_loopback dials) a h = loopback-Hooks dials a h
  step-Hooks (claim_extra i) a h = h
  step-Hooks (serve_extra i) a h = h
  step-Hooks (advance_shutdown is_idle) a h = Hooks-advance_from is_idle a.phase a refl h
  step-Hooks deadline_passes a (all, e, flags) = (
    all,
    e,
    late-FlagsAt a.phase a.draining a.http_down a.grpc a.past_deadline a.hooks_left flags,
  )
