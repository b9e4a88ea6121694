-- ===== src/Kernel/Lifecycle/Done.antt =====
-- kernel/app.go: what an app has let go of when Shutdown returns.
use gortexa.Common.{
  Bool, true, none, List, [], ◌∷◌, ◌++◌, ◌≤◌, ◌≡◌, refl, sym, ap, ◌∙◌, subst, inr, length, All,
  take, arith,
}
use gortexa.Kernel.Lifecycle.{
  Hook, Phase, idle, drained, stopping, waiting, marked, conn_closed, flushing, finished, App,
  Event, step, run, new_app,
}
use gortexa.Kernel.Lifecycle.Release.{IsReleased, Stopped, stopped, step-Stopped, take-all}
use gortexa.Kernel.Lifecycle.Conns.{Conns, ConnsAt, step-Conns}
use gortexa.Kernel.Lifecycle.Hooks.{IsHalted, Hooks, Flags, first_of, step-Hooks}

-- The state that Shutdown leaves.
abbrev pub IsDone : List Hook → App → Type 0
IsDone hooks a =
    All IsReleased a.extras
    × (a.live ≡ 0)
    × (a.dialed ≤ 1)
    × (a.draining ≡ true)
    × (a.http_down ≡ true)
    × IsHalted a.grpc a.past_deadline
    × (a.hooks_run ≡ hooks)
    × (a.shutdown_err ≡ first_of none hooks)

abbrev DoneAt : List Hook → Phase → App → Type 0
DoneAt hooks finished a = IsDone hooks a
DoneAt hooks idle a = Unit
DoneAt hooks drained a = Unit
DoneAt hooks (stopping i) a = Unit
DoneAt hooks (waiting i) a = Unit
DoneAt hooks (marked c) a = Unit
DoneAt hooks conn_closed a = Unit
DoneAt hooks flushing a = Unit

-- An app whose Shutdown has returned, if it has, is done.
abbrev pub DoneIfFinished : List Hook → App → Type 0
DoneIfFinished hooks a = DoneAt hooks a.phase a

append_nil : (xs : List Hook) → xs ++ [] ≡ xs
append_nil [] = refl
append_nil (x ∷ xs) = ap (λ rest. x ∷ rest) (append_nil xs)

module _ (hooks : List Hook) where
  abbrev Inv : App → Type 0
  Inv a = Stopped a × Conns a × Hooks hooks a

  run-Inv : (es : List Event) (a : App) → Inv a → Inv (run es a)
  unfolding run
  run-Inv [] a h = h
  run-Inv (e ∷ es) a (s, c, k) =
      run-Inv es (step e a) (step-Stopped e a s, step-Conns e a c, step-Hooks hooks e a k)

  new_app-Inv : (provided : List Bool) → Inv (new_app provided hooks)
  unfolding new_app
  new_app-Inv provided = (tt, (refl, refl, refl, inr refl), (refl, refl, tt))

  Inv-DoneAt :
      (p : Phase) (a : App)
      → All IsReleased (take (stopped p a.extras) a.extras)
      → ConnsAt p a
      → a.hooks_run ++ a.hooks_left ≡ hooks
      → a.shutdown_err ≡ first_of none a.hooks_run
      → Flags p a
      → DoneAt hooks p a
  Inv-DoneAt idle a s c k e f = tt
  Inv-DoneAt drained a s c k e f = tt
  Inv-DoneAt (stopping i) a s c k e f = tt
  Inv-DoneAt (waiting i) a s c k e f = tt
  Inv-DoneAt (marked b) a s c k e f = tt
  Inv-DoneAt conn_closed a s c k e f = tt
  Inv-DoneAt flushing a s c k e f = tt
  Inv-DoneAt finished a s (shut, live, dialed) k e (d, h, g, left) =
      let ran : a.hooks_run ≡ hooks =
        sym (append_nil a.hooks_run) ∙ ap (λ l. a.hooks_run ++ l) (sym left) ∙ k in
      (
        subst (All IsReleased) (take-all (length a.extras) a.extras (omega arith)) s,
        live,
        dialed,
        d,
        h,
        g,
        ran,
        e ∙ ap (first_of none) ran,
      )

-- Whatever calls of Loopback and whatever serving of the secondary listeners come between its steps:
-- when Shutdown returns, no loopback connection is open and at most one was ever made, every
-- secondary listener is closed or its server shut down, the health registry drains, the HTTP server is
-- down, the gRPC server has stopped or else the deadline has passed and its Stop is launched, and
-- each hook ran once, in order, the first error being the result.
pub run-DoneIfFinished :
    (provided : List Bool) (hooks : List Hook) (es : List Event)
    → DoneIfFinished hooks (run es (new_app provided hooks))
run-DoneIfFinished provided hooks es =
    let (s, c, (k, e, f)) =
      run-Inv hooks es (new_app provided hooks) (new_app-Inv hooks provided) in
    let a = run es (new_app provided hooks) in Inv-DoneAt hooks a.phase a s c k e f
