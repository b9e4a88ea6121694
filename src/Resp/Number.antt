-- ===== src/Resp/Number.antt =====
-- internal/resp/resp.go: parseInt over bytes, and the text that strconv.Itoa and FormatInt write.
pub mod Roundtrip
use gortexa.Common.{
  ℕ, zero, suc, nat_eq, Bool, true, false, List, [], ◌∷◌, ◌++◌, ◌+◌, ◌-◌, ◌*◌, ◌/◌, ◌%◌, ◌^◌, ◌≤◌,
  ◌<◌, ◌≡◌, ◌==◌, ◌||◌, ◌&&◌, ◌∙◌, arith, refl, if◌then◌else◌, ltb, leb, All, length, Bool-cases,
  inl, inr, ap,
}
use gortexa.Common.Int.{ℤ, pos, negsuc}
use gortexa.Common.Result.{Result, ok, err}

-- The errors of parseInt.
pub data NumberError : Type 0 where
  empty_integer no_digits invalid_integer integer_overflow : NumberError

abbrev pub max_int64 : ℕ
max_int64 = 9223372036854775807

abbrev pub is_digit : ℕ → Bool
is_digit b = leb b'0' b && leb b b'9'

-- The loop over the digits.
unfoldable pub parse_digits : ℕ → List ℕ → Result NumberError ℕ
parse_digits n [] = ok n
parse_digits n (b ∷ bs) =
    let d = b - b'0' in
    let rest = parse_digits (n * 10 + d) bs in
    if ltb b b'0' || ltb b'9' b
    then err invalid_integer
    else if ltb ((max_int64 - d) / 10) n
    then err integer_overflow
    else rest

negate : ℕ → ℤ
negate zero = pos 0
negate (suc n) = negsuc n

signed : Bool → Result NumberError ℕ → Result NumberError ℤ
unfolding negate
signed minus (ok n) = ok (if minus then negate n else pos n)
signed minus (err e) = err e

some_digits : Bool → List ℕ → Result NumberError ℤ
unfolding signed parse_digits
some_digits minus [] = err no_digits
some_digits minus (b ∷ bs) = signed minus (parse_digits 0 (b ∷ bs))

-- parseInt
unfoldable pub parse_int : List ℕ → Result NumberError ℤ
unfolding some_digits
parse_int [] = err empty_integer
parse_int (b ∷ bs) =
    if b == b'-'
    then some_digits true bs
    else if b == b'+'
    then some_digits false bs
    else some_digits false (b ∷ bs)

-- The decimal digits of a number, before those of `out`.
unfoldable pub decimal_from : ℕ → ℕ → List ℕ → List ℕ
decimal_from zero n out = out
decimal_from (suc fuel) n out =
    let out' = (b'0' + n % 10) ∷ out in
    let rest = decimal_from fuel (n / 10) out' in if ltb n 10 then out' else rest

-- An int64 has at most 19 digits.
unfoldable pub decimal : ℕ → List ℕ
unfolding decimal_from
decimal n = decimal_from 19 n []

-- strconv.Itoa and strconv.FormatInt with base 10.
unfoldable pub itoa : ℤ → List ℕ
unfolding decimal
itoa (pos n) = decimal n
itoa (negsuc n) = b'-' ∷ decimal (suc n)

-- The number that digits denote, after `n`.
pub value : ℕ → List ℕ → ℕ
value n [] = n
value n (b ∷ bs) = value (n * 10 + (b - b'0')) bs

value-le : (n : ℕ) (bs : List ℕ) → n ≤ value n bs
unfolding value
value-le n [] = omega arith
value-le n (b ∷ bs) = omega (arith, value-le (n * 10 + (b - b'0')) bs)

-- On digits, the loop computes the number that they denote if it fits an int64 and reports the
-- overflow if it does not: its test, made before the multiplication, misses no overflow and refuses
-- no number that fits.
pub parse_digits-value :
    (n : ℕ) (bs : List ℕ)
    → n ≤ max_int64
    → All (λ b. is_digit b ≡ true) bs
    → parse_digits n bs
      ≡ (if leb (value n bs) max_int64 then ok (value n bs) else err integer_overflow)
unfolding parse_digits value
parse_digits-value n [] small a = ground arith
parse_digits-value n (b ∷ bs) small a =
    ground (arith, parse_digits-value (n * 10 + (b - b'0')) bs, value-le (n * 10 + (b - b'0')) bs)
