-- ===== src/Cli/Names/Snake.antt =====
-- cmd/gortexa/internal/cli/names.go: the snake case of an entity loses nothing.
use gortexa.Common.{
  ℕ, suc, Bool, true, false, Option, none, some, List, [], ◌∷◌, ◌==◌, nat_eq, ◌&&◌, ◌+◌, ◌-◌, not,
  if◌then◌else◌, ◌≡◌, refl, arith, ap, inl, inr, Bool-cases, if_elim, sym, false≢true,
}
use mathlib.Core.Option.{none-ne-some}
use gortexa.Common.Result.{Result, ok, err}
use gortexa.Common.Text.{codes}
use gortexa.Cli.Names.{
  is_lower, is_upper, is_digit, is_alnum, every, matches_entity, digit_then_lower, snake_rest,
  camel_to_snake, TmplData, NameError, parse_target, with_parts, with_entity, split_slash, is_found,
  is_platform, last_part, ends_with, is_one_of, matches_domain, matches_version, default_entity,
  go_special_dirs,
}

-- The camel case of a snake name: a lower letter becomes a capital at the start, after an underscore,
-- which goes, and after a digit. `up` says whether one of these came before.
abbrev pub camel_from : Bool → List ℕ → List ℕ
camel_from up [] = []
camel_from up (c ∷ cs) =
    let after_bar = camel_from true cs in
    let after_letter = camel_from false cs in
    let after_other = camel_from (is_digit c) cs in
    if c == 95
    then after_bar
    else if is_lower c
    then (if up then c - 32 else c) ∷ after_letter
    else c ∷ after_other

abbrev pub camelize : List ℕ → List ℕ
camelize cs = camel_from true cs

abbrev starts_lower : List ℕ → Bool
starts_lower [] = false
starts_lower (c ∷ cs) = is_lower c

if_first :
    (b : Bool) (i : ℕ) (o : Option ℕ) → b ≡ true → (if b then some i else o) ≡ none → none ≡ some i
if_first true i o h k = sym k
if_first false i o h k = absurd (false≢true h)

if_second :
    (b : Bool) (i : ℕ) (o : Option ℕ) → b ≡ false → (if b then some i else o) ≡ none → o ≡ none
if_second true i o h k = absurd (false≢true (sym h))
if_second false i o h k = k

-- The tail of a name without a digit before a lower letter.
digit_then_lower-cons_lem :
    (i c : ℕ) (cs : List ℕ)
    → digit_then_lower i (c ∷ cs) ≡ none
    → (digit_then_lower (suc i) cs ≡ none) × ((is_digit c && starts_lower cs) ≡ false)
unfolding digit_then_lower
digit_then_lower-cons_lem i c [] h = (refl, ground arith)
digit_then_lower-cons_lem i c (d ∷ cs) h = elim (Bool-cases (is_digit c && is_lower d)) [
  | inl pair ↦ absurd (
      none-ne-some i
        (if_first (is_digit c && is_lower d) i (digit_then_lower (suc i) (d ∷ cs)) pair h))
  | inr other ↦
      (if_second (is_digit c && is_lower d) i (digit_then_lower (suc i) (d ∷ cs)) other h, other)
]

-- The lower case of a capital is a lower letter, whose capital it is.
lowered-is_lower :
    (c : ℕ)
    → is_upper c ≡ true
    → (((c - 65) + 97 == 95) ≡ false)
      × (is_lower ((c - 65) + 97) ≡ true)
      × (((c - 65) + 97) - 32 ≡ c)
unfolding is_upper is_lower
lowered-is_lower c h = (ground arith, ground arith, ground arith)

not_bar : (c : ℕ) → is_alnum c ≡ true → (c == 95) ≡ false
unfolding is_upper is_lower is_digit
not_bar c h = ground arith

camel_from-snake_rest :
    (up : Bool) (i : ℕ) (cs : List ℕ)
    → every is_alnum cs ≡ true
    → digit_then_lower i cs ≡ none
    → (up && starts_lower cs) ≡ false
    → camel_from up (snake_rest cs) ≡ cs
unfolding snake_rest every
camel_from-snake_rest up i [] a d s = refl
camel_from-snake_rest up i (c ∷ cs) a d s =
    let (d', pair) = digit_then_lower-cons_lem i c cs d in
    let a' : every is_alnum cs ≡ true = ground (arith, a) in
    let bar = not_bar c (ground (arith, a)) in
    elim (Bool-cases (is_upper c)) [
      | inl cap ↦
          let (mark, low, back) = lowered-is_lower c cap in
          rw (cap, mark, low, back)
            (ap (λ r. c ∷ r) (camel_from-snake_rest false (suc i) cs a' d' refl))
      | inr plain ↦ elim (Bool-cases (is_lower c)) [
        | inl low ↦
            let stays : up ≡ false = ground (arith, s, low) in
            rw (plain, bar, low, stays)
              (ap (λ r. c ∷ r) (camel_from-snake_rest false (suc i) cs a' d' refl))
        | inr high ↦
            rw (plain, bar, high)
              (ap (λ r. c ∷ r) (camel_from-snake_rest (is_digit c) (suc i) cs a' d' pair))
      ]
    ]

camelize-camel_to_snake :
    (cs : List ℕ)
    → matches_entity cs ≡ true
    → digit_then_lower 0 cs ≡ none
    → camelize (camel_to_snake cs) ≡ cs
unfolding matches_entity camel_to_snake
camelize-camel_to_snake [] m d = refl
camelize-camel_to_snake (c ∷ cs) m d =
    let cap : is_upper c ≡ true = ground (arith, m) in
    let (mark, low, back) = lowered-is_lower c cap in
    let (d', pair) = digit_then_lower-cons_lem 0 c cs d in
    rw (cap, mark, low, back)
      (ap (λ r. c ∷ r) (camel_from-snake_rest false 1 cs (ground (arith, m)) d' refl))

-- A target whose names lose nothing: the camel case of the snake name is the entity, and the file of
-- that name is no test.
abbrev pub IsFaithful : Result NameError TmplData → Type 0
IsFaithful (err e) = Unit
IsFaithful (ok t) = (camelize t.snake ≡ t.entity) × (ends_with (codes "_test") t.snake ≡ false)

not_found : (o : Option ℕ) → is_found o ≡ false → o ≡ none
not_found none h = refl
not_found (some i) h = absurd (false≢true (sym h))

refuted : (b : Bool) → not b ≡ false → b ≡ true
refuted true h = refl
refuted false h = sym h

with_entity-IsFaithful :
    (domain version entity : List ℕ) → IsFaithful (with_entity domain version entity)
unfolding with_entity
with_entity-IsFaithful domain version entity =
    if_elim IsFaithful (not (matches_entity entity)) (λ bad. tt)
      (λ fine.
        if_elim IsFaithful (is_found (digit_then_lower 0 entity)) (λ bad. tt)
          (λ steady.
            if_elim IsFaithful (ends_with (codes "_test") (camel_to_snake entity)) (λ bad. tt)
              (λ plain.
                if_elim IsFaithful (is_platform (last_part none (camel_to_snake entity)))
                  (λ bad. tt)
                  (λ free. (
                    camelize-camel_to_snake entity (refuted (matches_entity entity) fine)
                        (not_found (digit_then_lower 0 entity) steady),
                    plain,
                  )))))

with_parts-IsFaithful :
    (parts : List (List ℕ)) (entity : List ℕ) → IsFaithful (with_parts parts entity)
unfolding with_parts
with_parts-IsFaithful [] entity = tt
with_parts-IsFaithful (domain ∷ []) entity = tt
with_parts-IsFaithful (domain ∷ version ∷ []) entity =
    if_elim IsFaithful (not (matches_domain domain)) (λ bad. tt)
      (λ fine.
        if_elim IsFaithful (is_one_of go_special_dirs domain) (λ bad. tt)
          (λ usual.
            if_elim IsFaithful (not (matches_version version)) (λ bad. tt)
              (λ right. with_entity-IsFaithful domain version (default_entity domain entity))))
with_parts-IsFaithful (domain ∷ version ∷ more ∷ rest) entity = tt

-- A target that parseTarget accepts has a snake name whose camel case is the entity again, so that no
-- two entities share a file, and that file is not taken for a test.
pub parse_target-IsFaithful : (target entity : List ℕ) → IsFaithful (parse_target target entity)
unfolding parse_target
parse_target-IsFaithful target entity = with_parts-IsFaithful (split_slash target) entity
