-- ===== src/Health/Snapshot.antt =====
-- health/health.go: how current the shared snapshot is.
use gortexa.Common.{
  ℕ, String, string_eq, nat_eq, Option, none, some, List, [], ◌∷◌, ◌+◌, ◌-◌, ◌^◌, ◌≤◌, ◌<◌, ◌≡◌,
  ◌⊎◌, inl, inr, arith, refl, subst, ap, ltb, length, sym, ◌∙◌, ◌==◌, Bool-cases, Option-cases,
  if_elim, ◌&&◌,
}
use gortexa.Common.Dict.{Dict, lookup}
use gortexa.Health.{
  State, Check, Registry, new_registry, drain, replace, register, register_found, snapshot,
  is_fresh, served, cached_snapshot, watch_interval, Probe, Change, registers, replaces, drains,
  after_register, change, changes, eval_all,
}

-- What boots and changes the registry, and what reads it: the probes share one snapshot.
pub data Event : Type 0 where
  alters : Change → Event
  probed : Probe → Event

unfoldable pub step : Event → Registry → Registry
step (alters c) r = change c r
step (probed p) r = (cached_snapshot p r).0

unfoldable pub run : List Event → Registry → Registry
unfolding step
run [] r = r
run (e ∷ es) r = run es (step e r)

-- How many changes an event may bring, and a run.
abbrev moves : Event → ℕ
moves (alters c) = 1
moves (probed p) = length p.before_copy + length p.before_store

abbrev pub all_moves : List Event → ℕ
all_moves [] = 0
all_moves (e ∷ es) = moves e + all_moves es

-- Whether an event is a probe that runs its checks at these moments and is done at this one.
abbrev IsProbe : Event → (String → ℕ) → ℕ → Type 0
IsProbe (probed p) at done = (p.at ≡ at) × (p.done ≡ done)
IsProbe (alters c) at done = ⊥

-- Whether some event is.
abbrev pub Probed : List Event → (String → ℕ) → ℕ → Type 0
Probed [] at done = ⊥
Probed (e ∷ es) at done = IsProbe e at done ⊎ Probed es at done

-- A change bumps the generation, or leaves the checks as they are; the kept snapshot it leaves.
record Changed (r r' : Registry) : Type 0 where
  bumped : (r'.gen ≡ r.gen + 1) ⊎ ((r'.gen ≡ r.gen) × (r'.checks ≡ r.checks))
  kept_gen : r'.eval_gen ≡ r.eval_gen
  kept_at : r'.eval_at ≡ r.eval_at
  kept_snap : r'.eval_snap ≡ r.eval_snap

replace-Changed :
    (name : String) (c : Check) (r : Registry) → r.gen + 1 < 2 ^ 64 → Changed r (replace name c r)
unfolding replace
replace-Changed name c r room = record {
  bumped = inl (omega (arith, room));
  kept_gen = refl;
  kept_at = refl;
  kept_snap = refl;
}

registered-Changed :
    (name : String) (c : Check) (r : Registry) (found : Option Check)
    → r.gen + 1 < 2 ^ 64
    → Changed r (after_register r (register_found found name c r))
unfolding after_register register_found
registered-Changed name c r none room = replace-Changed name c r room
registered-Changed name c r (some dup) room = record {
  bumped = inr (refl, refl);
  kept_gen = refl;
  kept_at = refl;
  kept_snap = refl;
}

change-Changed : (c : Change) (r : Registry) → r.gen + 1 < 2 ^ 64 → Changed r (change c r)
unfolding change register drain
change-Changed (registers name c) r room = registered-Changed name c r (lookup name r.checks) room
change-Changed (replaces name c) r room = replace-Changed name c r room
change-Changed drains r room = record {
  bumped = inr (refl, refl);
  kept_gen = refl;
  kept_at = refl;
  kept_snap = refl;
}

change-gen :
    (c : Change) (r : Registry)
    → r.gen + 1 < 2 ^ 64
    → (r.gen ≤ (change c r).gen) × ((change c r).gen ≤ r.gen + 1)
change-gen c r room = elim (change-Changed c r room).bumped [
  | inl next ↦ (omega (arith, next), omega (arith, next))
  | inr (same, checks) ↦ (omega (arith, same), omega (arith, same))
]

changes-gen :
    (cs : List Change) (r : Registry)
    → r.gen + length cs < 2 ^ 64
    → (r.gen ≤ (changes cs r).gen) × ((changes cs r).gen ≤ r.gen + length cs)
unfolding changes
changes-gen [] r room = (omega arith, omega arith)
changes-gen (c ∷ cs) r room =
    let (least, most) = change-gen c r (omega (arith, room)) in
    let (low, high) = changes-gen cs (change c r) (omega (arith, room, most)) in
    (omega (arith, least, low), omega (arith, most, high))

-- Changes that leave the generation leave the checks.
checks-changes :
    (cs : List Change) (r : Registry)
    → r.gen + length cs < 2 ^ 64
    → (changes cs r).gen ≡ r.gen
    → (changes cs r).checks ≡ r.checks
unfolding changes
checks-changes [] r room same = refl
checks-changes (c ∷ cs) r room same =
    let (least, most) = change-gen c r (omega (arith, room)) in
    let (low, high) = changes-gen cs (change c r) (omega (arith, room, most)) in
    elim (change-Changed c r (omega (arith, room))).bumped [
      | inl next ↦ absurd (omega (arith, next, low, same))
      | inr (gen, checks) ↦
          checks-changes cs (change c r) (omega (arith, room, most)) (same ∙ sym gen) ∙ checks
    ]

snapshot-checks :
    (at : String → ℕ) (r r' : Registry) → r.checks ≡ r'.checks → snapshot at r ≡ snapshot at r'
unfolding snapshot
snapshot-checks at r r' same = ap (eval_all at) same

module _ (H : (String → ℕ) → ℕ → Type 0) where
  -- The snapshot that is kept, if its generation is the registry's, is one of the present checks, at
  -- moments of which `H` holds.
  IsCurrent : Registry → Option (Dict String State) → Type 0
  IsCurrent r none = Unit
  IsCurrent r (some snap) =
      r.eval_gen ≡ r.gen → (at : String → ℕ) × ((snap ≡ snapshot at r) × H at r.eval_at)

  record Inv (r : Registry) : Type 0 where
    past : r.eval_gen ≤ r.gen
    current : IsCurrent r r.eval_snap

  stale-IsCurrent :
      (r : Registry) (o : Option (Dict String State)) → r.eval_gen < r.gen → IsCurrent r o
  unfolding IsCurrent
  stale-IsCurrent r none h = tt
  stale-IsCurrent r (some snap) h = λ same. absurd (omega (arith, h, same))

  same-IsCurrent :
      (r r' : Registry) (o : Option (Dict String State))
      → r'.checks ≡ r.checks
      → r'.gen ≡ r.gen
      → r'.eval_gen ≡ r.eval_gen
      → r'.eval_at ≡ r.eval_at
      → IsCurrent r o
      → IsCurrent r' o
  unfolding IsCurrent
  same-IsCurrent r r' none checks gen eval_gen eval_at h = tt
  same-IsCurrent r r' (some snap) checks gen eval_gen eval_at h = λ same.
      let (at, (eq, held)) = h (sym eval_gen ∙ same ∙ gen) in
      (at, (eq ∙ snapshot-checks at r r' (sym checks), subst (H at) (sym eval_at) held))

  Changed-Inv : (r r' : Registry) → Changed r r' → Inv r → Inv r'
  Changed-Inv r r' ch inv = elim ch.bumped [
    | inl next ↦ record {
      past = omega (arith, next, ch.kept_gen, inv.past);
      current = stale-IsCurrent r' r'.eval_snap (omega (arith, next, ch.kept_gen, inv.past));
    }
    | inr (gen, checks) ↦ record {
      past = omega (arith, gen, ch.kept_gen, inv.past);
      current =
          same-IsCurrent r r' r'.eval_snap checks gen ch.kept_gen ch.kept_at
            (subst (IsCurrent r) (sym ch.kept_snap) inv.current);
    }
  ]

  probed-Inv :
      (p : Probe) (r : Registry)
      → H p.at p.done
      → r.gen + (length p.before_copy + length p.before_store) < 2 ^ 64
      → Inv r
      → Inv (cached_snapshot p r).0
  unfolding cached_snapshot IsCurrent
  probed-Inv p r held room inv =
      let copied = changes p.before_copy r in
      let (low, high) = changes-gen p.before_copy r (omega (arith, room)) in
      let stored = changes-gen p.before_store copied (omega (arith, room, high)) in
      elim (Bool-cases (is_fresh p.now r r.eval_snap)) [
        | inl fresh ↦ rw fresh inv
        | inr stale ↦ rw stale (record {
          past = omega (arith, low, stored.0);
          current = λ same. (
            p.at,
            (
              snapshot-checks p.at copied (changes p.before_store copied) (
                  sym (
                    checks-changes p.before_store copied (omega (arith, room, high))
                      (omega (arith, same, low, stored.0)))),
              held,
            ),
          );
        })
      ]

  step-Inv :
      (e : Event) (r : Registry)
      → ((at : String → ℕ) (done : ℕ) → IsProbe e at done → H at done)
      → r.gen + moves e < 2 ^ 64
      → Inv r
      → Inv (step e r)
  unfolding step
  step-Inv (alters c) r from room inv =
      Changed-Inv r (change c r) (change-Changed c r (omega (arith, room))) inv
  step-Inv (probed p) r from room inv =
      probed-Inv p r (from p.at p.done (refl, refl)) (omega (arith, room)) inv

  probed-gen :
      (p : Probe) (r : Registry)
      → r.gen + (length p.before_copy + length p.before_store) < 2 ^ 64
      → (cached_snapshot p r).0.gen ≤ r.gen + (length p.before_copy + length p.before_store)
  unfolding cached_snapshot
  probed-gen p r room =
      let copied = changes p.before_copy r in
      let (low, high) = changes-gen p.before_copy r (omega (arith, room)) in
      let stored = changes-gen p.before_store copied (omega (arith, room, high)) in
      if_elim {A = Registry × Dict String State}
        (λ out. out.0.gen ≤ r.gen + (length p.before_copy + length p.before_store))
        (is_fresh p.now r r.eval_snap) (λ fresh. omega arith)
        (λ stale. omega (arith, high, stored.1))

  step-gen :
      (e : Event) (r : Registry) → r.gen + moves e < 2 ^ 64 → (step e r).gen ≤ r.gen + moves e
  unfolding step
  step-gen (alters c) r room = (change-gen c r (omega (arith, room))).1
  step-gen (probed p) r room = probed-gen p r (omega (arith, room))

  run-Inv :
      (es : List Event) (r : Registry)
      → ((at : String → ℕ) (done : ℕ) → Probed es at done → H at done)
      → r.gen + all_moves es < 2 ^ 64
      → Inv r
      → Inv (run es r)
  unfolding run
  run-Inv [] r from room inv = inv
  run-Inv (e ∷ es) r from room inv =
      let next = step-gen e r (omega (arith, room)) in
      run-Inv es (step e r) (λ at done h. from at done (inr h)) (omega (arith, next, room))
        (step-Inv e r (λ at done h. from at done (inl h)) (omega (arith, room)) inv)

  new-Inv : Inv new_registry
  unfolding new_registry IsCurrent
  new-Inv = record { past = omega arith; current = tt }

  served-current :
      (p : Probe) (r : Registry)
      → Inv r
      → let snap = (cached_snapshot p r).1 in
        (snap ≡ snapshot p.at (changes p.before_copy r))
        ⊎ ((earlier : String → ℕ) × ((finished : ℕ) × (H earlier finished
                × (snap ≡ snapshot earlier r)
                × (p.now < finished + watch_interval))))
  unfolding cached_snapshot is_fresh served IsCurrent
  served-current p r inv = elim (Option-cases r.eval_snap) [
    | inl missing ↦ rw missing (inl refl)
    | inr (snap, kept) ↦
        elim (Bool-cases ((r.eval_gen == r.gen) && ltb (p.now - r.eval_at) watch_interval)) [
          | inl fresh ↦
              rw (kept, fresh)
                (let (earlier, (same, held)) =
                    subst (IsCurrent r) kept inv.current (ground (arith, fresh)) in
                  inr (earlier, (r.eval_at, (held, same, ground (arith, fresh)))))
          | inr stale ↦ rw (kept, stale) (inl refl)
        ]
  ]

-- However a registry came to its state, by fewer than 2^64 changes of its checks, also by such as fall
-- into the middle of a probe: what a probe is served is an evaluation of the checks registered as it
-- copies them, taken by this probe, or an evaluation of those registered as it comes that an earlier
-- probe took and finished less than a second before.
pub cached_snapshot-current :
    (es : List Event) (p : Probe)
    → all_moves es < 2 ^ 64
    → let r = run es new_registry in
      let snap = (cached_snapshot p r).1 in
      (snap ≡ snapshot p.at (changes p.before_copy r))
      ⊎ ((earlier : String → ℕ) × ((finished : ℕ) × (Probed es earlier finished
              × (snap ≡ snapshot earlier r)
              × (p.now < finished + watch_interval))))
unfolding new_registry
cached_snapshot-current es p room = served-current (Probed es) p (run es new_registry) (
    run-Inv (Probed es) es new_registry (λ at' done' h. h) (omega (arith, room))
      (new-Inv (Probed es)))
