-- ===== src/Health/Watch.antt =====
-- health/health.go: what a watch stream receives.
use gortexa.Common.{
  string_eq, nat_eq, Bool, true, false, List, [], ◌∷◌, ◌≡◌, ◌≢◌, inl, inr, refl, ap, if◌then◌else◌,
  sym, ◌∙◌, ◌==◌, Bool-cases,
}
use gortexa.Health.{
  Status, serving, not_serving, impossible, service_unknown, status_code, Wake, left, tick,
  drain_begins, send, sent_then, watch_loop, watch,
}

abbrev pub same_status : Status → Status → Bool
same_status serving serving = true
same_status serving not_serving = false
same_status serving service_unknown = false
same_status serving impossible = false
same_status not_serving serving = false
same_status not_serving not_serving = true
same_status not_serving service_unknown = false
same_status not_serving impossible = false
same_status service_unknown serving = false
same_status service_unknown not_serving = false
same_status service_unknown service_unknown = true
same_status service_unknown impossible = false
same_status impossible serving = false
same_status impossible not_serving = false
same_status impossible service_unknown = false
same_status impossible impossible = true

code-same_status : (a b : Status) → (status_code a == status_code b) ≡ same_status a b
unfolding status_code
code-same_status serving serving = refl
code-same_status serving not_serving = refl
code-same_status serving service_unknown = refl
code-same_status serving impossible = refl
code-same_status not_serving serving = refl
code-same_status not_serving not_serving = refl
code-same_status not_serving service_unknown = refl
code-same_status not_serving impossible = refl
code-same_status service_unknown serving = refl
code-same_status service_unknown not_serving = refl
code-same_status service_unknown service_unknown = refl
code-same_status service_unknown impossible = refl
code-same_status impossible serving = refl
code-same_status impossible not_serving = refl
code-same_status impossible service_unknown = refl
code-same_status impossible impossible = refl

-- The statuses that a stream hears after its first, and whether it takes each: those of its ticks,
-- and the one as the server drains, which is the last; none once the client has left.
abbrev pub heard : List Wake → List (Status × Bool)
heard [] = []
heard (left ∷ ws) = []
heard (drain_begins st accepted ∷ ws) = (st, accepted) ∷ []
heard (tick st accepted ∷ ws) = (st, accepted) ∷ heard ws

-- Those that differ from the one before, the first from `last`.
abbrev pub changed : Status → List (Status × Bool) → List (Status × Bool)
changed last [] = []
changed last ((st, accepted) ∷ rest) =
    let kept = changed last rest in
    let moved = changed st rest in if same_status st last then kept else (st, accepted) ∷ moved

-- Up to the first that the stream does not take.
abbrev pub until_refused : List (Status × Bool) → List Status
until_refused [] = []
until_refused ((st, accepted) ∷ rest) =
    let later = until_refused rest in st ∷ (if accepted then later else [])

refused_or_not :
    (st : Status) (accepted : Bool) (rest : List Status)
    → sent_then (st ∷ []) accepted rest ≡ st ∷ (if accepted then rest else [])
unfolding sent_then
refused_or_not st true rest = refl
refused_or_not st false rest = refl

nothing_sent : (rest : List Status) → sent_then [] true rest ≡ rest
unfolding sent_then
nothing_sent rest = refl

send-changed :
    (last st : Status) (accepted : Bool) (later : List (Status × Bool)) (rest : List Status)
    → rest ≡ until_refused (changed (send last st accepted).0 later)
    → sent_then (send last st accepted).1 (send last st accepted).2 rest
      ≡ until_refused (changed last ((st, accepted) ∷ later))
unfolding send
send-changed last st accepted later rest = elim (Bool-cases (status_code st == status_code last)) [
  | inl same ↦ rw (same, sym (code-same_status st last) ∙ same) (λ h. nothing_sent rest ∙ h)
  | inr other ↦
      rw (other, sym (code-same_status st last) ∙ other)
        (λ h. refused_or_not st accepted rest ∙ ap (λ l. st ∷ (if accepted then l else [])) h)
]

watch_loop-changed :
    (last : Status) (ws : List Wake) → watch_loop last ws ≡ until_refused (changed last (heard ws))
unfolding watch_loop
watch_loop-changed last [] = refl
watch_loop-changed last (left ∷ ws) = refl
watch_loop-changed last (drain_begins st accepted ∷ ws) = send-changed last st accepted [] [] refl
watch_loop-changed last (tick st accepted ∷ ws) =
    send-changed last st accepted (heard ws) (watch_loop (send last st accepted).0 ws)
      (watch_loop-changed (send last st accepted).0 ws)

first_change :
    (st : Status) (accepted : Bool) (rest : List (Status × Bool))
    → st ≢ impossible
    → changed impossible ((st, accepted) ∷ rest) ≡ (st, accepted) ∷ changed st rest
first_change serving accepted rest h = refl
first_change not_serving accepted rest h = refl
first_change service_unknown accepted rest h = refl
first_change impossible accepted rest h = absurd (h refl)

-- What Watch sends is the status when the client comes, always, and then, in order, each status it
-- hears that differs from the one before, up to the first that the stream does not take; the last
-- status heard is the one as the server drains, and none is after the client leaves.
pub watch-changed :
    (st : Status) (accepted : Bool) (ws : List Wake)
    → st ≢ impossible
    → watch st accepted ws ≡ until_refused ((st, accepted) ∷ changed st (heard ws))
unfolding watch
watch-changed st accepted ws h =
    watch_loop-changed impossible (tick st accepted ∷ ws)
    ∙ ap until_refused (first_change st accepted (heard ws) h)
