-- ===== src/Cache/Refinement.antt =====
-- cache/memory.go: the cache as a map from keys to values that expire.
use gortexa.Common.{
  ℕ, String, string_eq, nat_eq, Bool, true, false, List, [], ◌∷◌, ◌==◌, ◌&&◌, ◌+◌, ◌≤◌, ◌<◌, ◌≡◌,
  inl, inr, if◌then◌else◌, ltb, arith, refl, sym, Bool-cases, ◌∙◌, subst, ap, Option, if_elim,
}
use text.Mathlib.TextEquality.{eq_iff}
use gortexa.Apperr.Types.{Err}
use gortexa.Common.Int.{ℤ, pos, negsuc, is_negative}
use gortexa.Common.Result.{Result, ok, err}
use gortexa.Cache.{
  MemoryEntry, MemoryCache, get, set, del, sweep, close, err_cache_miss, err_memory_closed,
}
use gortexa.Cache.Eviction.{IsOrder}
use gortexa.Cache.Reads.{get-set_self, get-set_other, get-del, get-sweep}

-- The operations, with their clocks and the order in which the runtime visits the map.
pub data Op : Type 0 where
  put : ℕ → ℕ → List (String × MemoryEntry) → String → List ℕ → ℤ → Op
  drop : String → Op
  tick : ℕ → List (String × MemoryEntry) → Op
  shut_down : Op

unfoldable pub apply : Op → MemoryCache → MemoryCache
apply (put now later order key val ttl) c = (set now later order key val ttl c).0
apply (drop key) c = (del key c).0
apply (tick now order) c = sweep now order c
apply shut_down c = close c

unfoldable pub run : List Op → MemoryCache → MemoryCache
unfolding apply
run [] c = c
run (op ∷ ops) c = run ops (apply op c)

-- The abstract cache: whether it is shut, and what each key answers at one instant.
pub record Answers : Type 0 where
  pub shut : Bool
  pub view : String → Result Err (List ℕ)

-- What a cache answers.
abbrev pub answers_of : ℕ → MemoryCache → Answers
answers_of at c = record { shut = c.closed; view = λ k. get at k c }

abbrev with_answer : String → Result Err (List ℕ) → Answers → Answers
with_answer key r m =
    if m.shut then m else record { shut = false; view = λ k. if key == k then r else m.view k }

-- What an operation makes of the answers: a negative ttl and the janitor nothing, and after Close
-- every key answers that the cache is closed.
abbrev pub change : ℕ → Op → Answers → Answers
change at (put now later order key val (negsuc n)) m = m
change at (put now later order key val (pos ttl)) m =
    with_answer key (if ltb 0 ttl && ltb (now + ttl) at then err err_cache_miss else ok val) m
change at (drop key) m = with_answer key (err err_cache_miss) m
change at (tick now order) m = m
change at shut_down m = record { shut = true; view = λ k. err err_memory_closed }

abbrev pub changes : ℕ → List Op → Answers → Answers
changes at [] m = m
changes at (op ∷ ops) m = changes at ops (change at op m)

-- The order that an operation visits is one of the map, and the janitor's tick is no later than `at`.
abbrev IsAllowed : ℕ → Op → MemoryCache → Type 0
IsAllowed at (put now later order key val ttl) c = IsOrder c.items order
IsAllowed at (drop key) c = Unit
IsAllowed at (tick now order) c = IsOrder c.items order × (now ≤ at)
IsAllowed at shut_down c = Unit

abbrev pub AreAllowed : ℕ → List Op → MemoryCache → Type 0
AreAllowed at [] c = Unit
AreAllowed at (op ∷ ops) c = IsAllowed at op c × AreAllowed at ops (apply op c)

-- A cache without a bound.
abbrev pub IsUnbounded : MemoryCache → Type 0
IsUnbounded c = c.max_entries ≡ 0

-- The refinement relation.
abbrev Implements : ℕ → MemoryCache → Answers → Type 0
Implements at c m = (c.closed ≡ m.shut) × ((k : String) → get at k c ≡ m.view k)

if_true : {A : Type 0} (b : Bool) (x y : A) → b ≡ true → (if b then x else y) ≡ x
if_true b x y h = rw h refl

if_false : {A : Type 0} (b : Bool) (x y : A) → b ≡ false → (if b then x else y) ≡ y
if_false b x y h = rw h refl

apply-IsUnbounded : (op : Op) (c : MemoryCache) → IsUnbounded c → IsUnbounded (apply op c)
unfolding apply set del sweep close
apply-IsUnbounded (put now later order key val ttl) c m =
    if_elim {A = MemoryCache × Option Err} (λ p. IsUnbounded p.0) (is_negative ttl) (λ refused. m)
      (λ fine.
        if_elim {A = MemoryCache × Option Err} (λ p. IsUnbounded p.0) c.closed (λ closed. m)
          (λ open_cache. m))
apply-IsUnbounded (drop key) c m =
    if_elim {A = MemoryCache × Option Err} (λ p. IsUnbounded p.0) c.closed (λ closed. m)
      (λ open_cache. m)
apply-IsUnbounded (tick now order) c m = m
apply-IsUnbounded shut_down c m =
    if_elim {A = MemoryCache} IsUnbounded c.closed (λ closed. m) (λ open_cache. m)

unbounded : (n : ℕ) → n ≡ 0 → 0 < n → ⊥
unbounded n h k = omega (arith, h, k)

-- One key of an open cache gets another answer, or nothing of a shut one changes.
with_answer-Implements :
    (at : ℕ) (key : String) (r : Result Err (List ℕ)) (c c' : MemoryCache) (m : Answers)
    → Implements at c m
    → (c.closed ≡ true → c' ≡ c)
    → (c.closed ≡ false
        → (c'.closed ≡ false) × ((k : String) → get at k c' ≡ (if key == k then r else get at k c)))
    → Implements at c' (with_answer key r m)
with_answer-Implements at key r c c' m (same, views) shut_case open_case =
    elim (Bool-cases c.closed) [
      | inl shut ↦
          subst (λ d. Implements at d (with_answer key r m)) (sym (shut_case shut))
            (subst (Implements at c) (sym (if_true m.shut m _ (sym same ∙ shut))) (same, views))
      | inr stays ↦
          let (still, answered) = open_case stays in
          subst (Implements at c') (sym (if_false m.shut m _ (sym same ∙ stays)))
            (still, λ k. answered k ∙ ap (λ v. if key == k then r else v) (views k))
    ]

set_shut :
    (now later : ℕ) (order : List (String × MemoryEntry)) (key : String) (val : List ℕ) (ttl : ℕ)
    (c : MemoryCache)
    → c.closed ≡ true
    → (set now later order key val (pos ttl) c).0 ≡ c
unfolding set
set_shut now later order key val ttl c h = rw h refl

set_open :
    (now later : ℕ) (order : List (String × MemoryEntry)) (key : String) (val : List ℕ) (ttl : ℕ)
    (c : MemoryCache)
    → c.closed ≡ false
    → (set now later order key val (pos ttl) c).0.closed ≡ false
unfolding set
set_open now later order key val ttl c h = rw h refl

get-set_any :
    (at now later : ℕ) (order : List (String × MemoryEntry)) (key : String) (val : List ℕ) (ttl : ℕ)
    (c : MemoryCache) (k : String)
    → IsUnbounded c
    → IsOrder c.items order
    → c.closed ≡ false
    → get at k (set now later order key val (pos ttl) c).0 ≡ (
        if key == k
        then (if ltb 0 ttl && ltb (now + ttl) at then err err_cache_miss else ok val)
        else get at k c)
get-set_any at now later order key val ttl c k m a o = elim (Bool-cases (key == k)) [
  | inl hit ↦ rw hit (
      subst
        (λ j.
          get at j (set now later order key val (pos ttl) c).0
          ≡ (if ltb 0 ttl && ltb (now + ttl) at then err err_cache_miss else ok val))
        ((eq_iff key k).0 hit) (get-set_self now later at order key val ttl c o))
  | inr miss ↦
      elim (get-set_other now later at order key k val (pos ttl) c
        (λ e. ground (arith, eq_iff key k, miss, e)) a) [
          | inl kept ↦ rw miss kept
          | inr (lost, absent, bound, over) ↦ absurd (unbounded c.max_entries m bound)
        ]
]

negative_refused :
    (now later : ℕ) (order : List (String × MemoryEntry)) (key : String) (val : List ℕ) (n : ℕ)
    (c : MemoryCache)
    → (set now later order key val (negsuc n) c).0 ≡ c
unfolding set
negative_refused now later order key val n c = refl

del_shut : (key : String) (c : MemoryCache) → c.closed ≡ true → (del key c).0 ≡ c
unfolding del
del_shut key c h = rw h refl

del_open : (key : String) (c : MemoryCache) → c.closed ≡ false → (del key c).0.closed ≡ false
unfolding del
del_open key c h = rw h refl

closed-close : (c : MemoryCache) → (close c).closed ≡ true
unfolding close
closed-close c = ground arith

get_closed :
    (at : ℕ) (k : String) (c : MemoryCache) → c.closed ≡ true → get at k c ≡ err err_memory_closed
unfolding get
get_closed at k c h = rw h refl

closed-sweep :
    (now : ℕ) (order : List (String × MemoryEntry)) (c : MemoryCache)
    → (sweep now order c).closed ≡ c.closed
unfolding sweep
closed-sweep now order c = refl

apply-Implements :
    (at : ℕ) (op : Op) (c : MemoryCache) (m : Answers)
    → IsUnbounded c
    → IsAllowed at op c
    → Implements at c m
    → Implements at (apply op c) (change at op m)
unfolding apply
apply-Implements at (put now later order key val (negsuc n)) c m u a h =
    subst (λ d. Implements at d m) (sym (negative_refused now later order key val n c)) h
apply-Implements at (put now later order key val (pos ttl)) c m u a h =
    with_answer-Implements at key
      (if ltb 0 ttl && ltb (now + ttl) at then err err_cache_miss else ok val) c
      (set now later order key val (pos ttl) c).0 m h (set_shut now later order key val ttl c)
      (λ o. (
        set_open now later order key val ttl c o,
        λ k. get-set_any at now later order key val ttl c k u a o,
      ))
apply-Implements at (drop key) c m u a h =
    with_answer-Implements at key (err err_cache_miss) c (del key c).0 m h (del_shut key c)
      (λ o. (del_open key c o, λ k. get-del at key k c o))
apply-Implements at (tick now order) c m u (o, le) (same, views) =
    (closed-sweep now order c ∙ same, λ k. get-sweep now at order k c o le ∙ views k)
apply-Implements at shut_down c m u a h =
    (closed-close c, λ k. get_closed at k (close c) (closed-close c))

run-Implements :
    (at : ℕ) (ops : List Op) (c : MemoryCache) (m : Answers)
    → IsUnbounded c
    → AreAllowed at ops c
    → Implements at c m
    → Implements at (run ops c) (changes at ops m)
unfolding run
run-Implements at [] c m u a h = h
run-Implements at (op ∷ ops) c m u a h =
    run-Implements at ops (apply op c) (change at op m) (apply-IsUnbounded op c u) a.1
      (apply-Implements at op c m u a.0 h)

-- A cache without a bound refines a map of values that expire: after any calls of Set, with any ttl,
-- of Del and Close, and ticks of the janitor no later than the instant asked about, Get returns for
-- that instant what the map holds: the value of the last Set of the key that was not refused, unless
-- its time is up or a Del came after it, and the closed error once the cache is closed. A Set with a
-- negative ttl changes nothing, nor does a tick.
pub get-run :
    (at : ℕ) (ops : List Op) (c : MemoryCache) (k : String)
    → IsUnbounded c
    → AreAllowed at ops c
    → get at k (run ops c) ≡ (changes at ops (answers_of at c)).view k
get-run at ops c k u a = (run-Implements at ops c (answers_of at c) u a (refl, λ j. refl)).1 k
