-- ===== src/Kernel/Examples.antt =====
-- The kernel at concrete runs.
use gortexa.Common.{
  ℕ, string_eq, nat_eq, true, false, none, some, [], ◌∷◌, ◌≡◌, ◌↔◌, refl, arith, List,
}
use gortexa.Health.{Probe, new_registry, serving, status_for}
use gortexa.Kernel.Lifecycle.{
  Event, call_loopback, claim_extra, serve_extra, advance_shutdown, deadline_passes, run, new_app,
  finished, Hook,
}
use gortexa.Kernel.Lifecycle.Done.{DoneIfFinished, run-DoneIfFinished}
use gortexa.Kernel.Lifecycle.Budget.{run-finished}
use gortexa.Kernel.Options.{
  AppOption, without_interceptors, with_shutdown_hook, with_listener, admin_listener, new,
}
use gortexa.Kernel.Options.Accepts.{IsGoverned, last_set, opts_out, chain_of, new-IsGoverned}
use gortexa.Kernel.Mux.{handle_readyz}
use gortexa.Kernel.Mux.Readiness.{handle_readyz-status_for}

abbrev hooks : List Hook
hooks = some "flush failed" ∷ none ∷ []

-- A caller's listener that serve hands over while Shutdown is under way, and calls of Loopback before
-- and after the mark. The HTTP server is not idle at first, the gRPC server not by the deadline.
abbrev events : List Event
events =
    call_loopback true
    ∷ claim_extra 0
    ∷ advance_shutdown false
    ∷ advance_shutdown false
    ∷ advance_shutdown true
    ∷ call_loopback false
    ∷ advance_shutdown true
    ∷ serve_extra 0
    ∷ advance_shutdown true
    ∷ call_loopback true
    ∷ advance_shutdown true
    ∷ advance_shutdown true
    ∷ deadline_passes
    ∷ advance_shutdown false
    ∷ advance_shutdown false
    ∷ advance_shutdown false
    ∷ advance_shutdown false
    ∷ advance_shutdown false
    ∷ []

run-finished_example : (run events (new_app (true ∷ []) hooks)).phase ≡ finished
run-finished_example = run-finished (true ∷ []) hooks events (omega arith)

run-DoneIfFinished_example : DoneIfFinished hooks (run events (new_app (true ∷ []) hooks))
run-DoneIfFinished_example = run-DoneIfFinished (true ∷ []) hooks events

abbrev options : List (AppOption ℕ ℕ ℕ)
options =
    without_interceptors ∷ with_shutdown_hook none ∷ with_listener (admin_listener ":9090") ∷ []

new-IsGoverned_example :
    IsGoverned (last_set none options) (opts_out false options) (chain_of (new options))
new-IsGoverned_example = new-IsGoverned options

-- A probe of the registry, which nothing changes meanwhile.
abbrev probe : Probe
probe = record { now = 5; at = λ n. 5; done = 6; before_copy = []; before_store = [] }

handle_readyz-status_for_example :
    ((handle_readyz probe false new_registry).1.code ≡ 200)
    ↔ ((status_for probe "" new_registry).1 ≡ serving)
handle_readyz-status_for_example = handle_readyz-status_for probe false new_registry

-- The run ends, and its result is the error of the first hook.
run_result : (run events (new_app (true ∷ []) hooks)).shutdown_err ≡ some "flush failed"
unfolding run new_app
run_result = refl
