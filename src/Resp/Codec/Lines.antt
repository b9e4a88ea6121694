-- ===== src/Resp/Codec/Lines.antt =====
-- internal/resp/resp.go: readLine on any input, however long its lines.
use gortexa.Common.{
  ℕ, zero, suc, nat_eq, Bool, true, false, List, [], ◌∷◌, ◌++◌, ◌+◌, ◌≤◌, ◌<◌, ◌≡◌, arith, refl,
  if◌then◌else◌, ltb, length, some, ap, Option-cases, inl, inr, ◌⊎◌, subst,
}
use mathlib.Core.Option.{some-injective}
use gortexa.Common.Result.{Result, ok, err}
use gortexa.Resp.Codec.{
  ReplyError, line_too_long, max_line_len, buffer_len, scan, chop, fragment, read_fragment,
  read_more, read_line,
}

-- A scan splits its input, less the newline, and takes `k` bytes at most.
length-scan :
    (k : ℕ) (bs : List ℕ)
    → let (line, found, rest) = scan k bs in
      (length line + length rest + (if found then 1 else 0) ≡ length bs) × (length line ≤ k)
unfolding scan
length-scan zero bs = (omega arith, omega arith)
length-scan (suc k) [] = (refl, omega arith)
length-scan (suc k) (b ∷ bs) = ground (arith, length-scan k bs)

length-chop :
    (line : List ℕ) → length (chop line).0 + (if (chop line).1 then 1 else 0) ≡ length line
unfolding chop
length-chop [] = refl
length-chop (b ∷ []) = ground arith
length-chop (b ∷ c ∷ line) = omega (arith, length-chop (c ∷ line))

-- A fragment is no longer than the buffer, and one that is a prefix makes the input shorter.
abbrev Fits : List ℕ → List ℕ × Bool × List ℕ → Type 0
Fits bs t = (length t.0 ≤ buffer_len) × ((t.1 ≡ false) ⊎ (length t.2 < length bs))

fragment-Fits :
    (bs line : List ℕ) (found : Bool) (rest : List ℕ)
    → length line ≤ buffer_len
    → length line + length rest + (if found then 1 else 0) ≡ length bs
    → Fits bs (fragment (line, found, rest))
unfolding fragment
fragment-Fits bs line true rest h k = (omega (arith, length-chop line), inl refl)
fragment-Fits bs line false rest h k = ground (arith, length-chop line)

read_fragment-Fits :
    (bs : List ℕ) (t : List ℕ × Bool × List ℕ) → read_fragment bs ≡ some t → Fits bs t
unfolding read_fragment
read_fragment-Fits [] t h = cc
read_fragment-Fits (b ∷ bs) t h =
    let (whole, short) = length-scan buffer_len (b ∷ bs) in
    let (line, found, rest) = scan buffer_len (b ∷ bs) in
    subst (Fits (b ∷ bs)) (some-injective _ _ h)
      (fragment-Fits (b ∷ bs) line found rest short whole)

-- The loop ends by itself within as many rounds as there are bytes: more fuel changes nothing.
read_more-fuel :
    (fuel : ℕ) (full bs : List ℕ)
    → length bs ≤ fuel
    → read_more (suc fuel) full bs ≡ read_more fuel full bs
unfolding read_more
read_more-fuel zero full [] h = refl
read_more-fuel zero full (b ∷ bs) h = absurd (omega (arith, h))
read_more-fuel (suc fuel) full bs h = elim (Option-cases (read_fragment bs)) [
  | inl ended ↦ rw (ended, read_more) refl
  | inr ((line, false, rest), got) ↦ rw (got, read_more) refl
  | inr ((line, true, rest), got) ↦
      let smaller = read_fragment-Fits bs (line, true, rest) got in
      rw (got, read_more)
        (ap (λ r. if ltb max_line_len (length (full ++ line)) then err line_too_long else r)
          (read_more-fuel fuel (full ++ line) rest (ground (arith, smaller))))
]

last_fits :
    (full line r rest : List ℕ)
    → (let done : Result ReplyError (List ℕ × List ℕ) = ok (full, r) in
        (if ltb max_line_len (length full) then err line_too_long else done) ≡ ok (line, rest))
    → length line ≤ max_line_len
last_fits full line r rest h = ground arith

more_fits :
    (full : List ℕ) (more : Result ReplyError (List ℕ × List ℕ)) (line rest : List ℕ)
    → (more ≡ ok (line, rest) → length line ≤ max_line_len)
    → (if ltb max_line_len (length full) then err line_too_long else more) ≡ ok (line, rest)
    → length line ≤ max_line_len
more_fits full more line rest ih h = ground (arith, ih)

first_fits :
    (l line r rest : List ℕ)
    → length l ≤ buffer_len
    → ◌≡◌ {A = Result ReplyError (List ℕ × List ℕ)} (ok (l, r)) (ok (line, rest))
    → length line ≤ max_line_len
first_fits l line r rest short h = ground arith

read_more-le :
    (fuel : ℕ) (full bs line rest : List ℕ)
    → read_more fuel full bs ≡ ok (line, rest)
    → length line ≤ max_line_len
unfolding read_more
read_more-le zero full bs line rest h = cc
read_more-le (suc fuel) full bs line rest h = elim (Option-cases (read_fragment bs)) [
  | inl ended ↦ cc (rw (ended, read_more) at h)
  | inr ((l, false, r), got) ↦ last_fits (full ++ l) line r rest (rw (got, read_more) at h)
  | inr ((l, true, r), got) ↦
      more_fits (full ++ l) (read_more fuel (full ++ l) r) line rest
        (read_more-le fuel (full ++ l) r line rest) (rw (got, read_more) at h)
]

-- A line that readLine returns is at most 64 KiB long, whatever the peer sends.
pub length-read_line-le :
    (bs line rest : List ℕ) → read_line bs ≡ ok (line, rest) → length line ≤ max_line_len
unfolding read_line
length-read_line-le bs line rest h = elim (Option-cases (read_fragment bs)) [
  | inl ended ↦ cc (rw (ended, read_line) at h)
  | inr ((l, false, r), got) ↦
      let (short, done) = read_fragment-Fits bs (l, false, r) got in
      first_fits l line r rest short (rw (got, read_line) at h)
  | inr ((l, true, r), got) ↦ read_more-le (length r) l r line rest (rw (got, read_line) at h)
]
