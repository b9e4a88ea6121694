-- ===== src/Resp/Number/Roundtrip.antt =====
-- internal/resp/resp.go: parseInt reads back what strconv writes.
use native.Mathlib.Nat.{pow-suc}
use gortexa.Common.{
  ℕ, zero, suc, nat_eq, true, false, List, [], ◌∷◌, ◌+◌, ◌/◌, ◌%◌, ◌^◌, ◌≤◌, ◌<◌, ◌≡◌, ◌∙◌, arith,
  refl, ltb, lt→ltb, le→leb, All, length, Bool-cases, inl, inr, ap,
}
use gortexa.Common.Int.{ℤ, pos, negsuc}
use gortexa.Common.Result.{ok}
use gortexa.Resp.Number.{
  is_digit, max_int64, parse_digits, parse_int, signed, negate, decimal_from, decimal, itoa, value,
  parse_digits-value,
}

pow_step : (k n : ℕ) → n < 10 ^ suc k → n / 10 < 10 ^ k
pow_step k n h = omega (arith, pow-suc 10 k)

abbrev pub AreDigits : List ℕ → Type 0
AreDigits = All (λ b. is_digit b ≡ true)

digit_is_digit : (n : ℕ) → n < 10 → is_digit (b'0' + n) ≡ true
digit_is_digit n h = ground arith

decimal_from-AreDigits :
    (fuel n : ℕ) (out : List ℕ) → AreDigits out → AreDigits (decimal_from fuel n out)
unfolding decimal_from
decimal_from-AreDigits zero n out a = a
decimal_from-AreDigits (suc fuel) n out a = elim (Bool-cases (ltb n 10)) [
  | inl last ↦ rw (last, decimal_from) (digit_is_digit (n % 10) (omega arith), a)
  | inr more ↦
      rw (more, decimal_from)
        (decimal_from-AreDigits fuel (n / 10) ((b'0' + n % 10) ∷ out)
          (digit_is_digit (n % 10) (omega arith), a))
]

value-decimal_from :
    (k n : ℕ) (out : List ℕ) → n < 10 ^ suc k → value 0 (decimal_from (suc k) n out) ≡ value n out
unfolding decimal_from value
value-decimal_from zero n out h =
    rw (lt→ltb n 10 h, decimal_from) (ap (λ m. value m out) (omega arith))
value-decimal_from (suc k) n out h = elim (Bool-cases (ltb n 10)) [
  | inl last ↦ rw (last, decimal_from) (ap (λ m. value m out) (ground arith))
  | inr more ↦
      rw (more, decimal_from)
        (value-decimal_from k (n / 10) ((b'0' + n % 10) ∷ out) (pow_step (suc k) n h)
          ∙ ap (λ m. value m out) (omega arith))
]

length-decimal_from : (k n : ℕ) (out : List ℕ) → length out < length (decimal_from (suc k) n out)
unfolding decimal_from
length-decimal_from zero n out = ground arith
length-decimal_from (suc k) n out =
    ground (arith, length-decimal_from k (n / 10) ((b'0' + n % 10) ∷ out))

-- Text that opens with a digit is read without a sign.
parse_int-digits :
    (bs : List ℕ) → 0 < length bs → AreDigits bs → parse_int bs ≡ signed false (parse_digits 0 bs)
unfolding parse_int
parse_int-digits [] h a = absurd (omega arith)
parse_int-digits (b ∷ bs) h a = ground arith

parse_int-minus :
    (bs : List ℕ) → 0 < length bs → parse_int (b'-' ∷ bs) ≡ signed true (parse_digits 0 bs)
unfolding parse_int
parse_int-minus [] h = absurd (omega arith)
parse_int-minus (b ∷ bs) h = refl

pub decimal-AreDigits : (n : ℕ) → AreDigits (decimal n)
unfolding decimal
decimal-AreDigits n = decimal_from-AreDigits 19 n [] tt

decimal_nonempty : (n : ℕ) → 0 < length (decimal n)
unfolding decimal
decimal_nonempty n = length-decimal_from 18 n []

parse_digits-decimal : (n : ℕ) → n ≤ max_int64 → parse_digits 0 (decimal n) ≡ ok n
unfolding decimal value
parse_digits-decimal n h =
    let same : value 0 (decimal n) ≡ n = value-decimal_from 18 n [] (omega arith) in
    rw
      (
        parse_digits-value 0 (decimal n) (omega arith) (decimal-AreDigits n),
        same,
        le→leb n max_int64 h,
      )
      refl

-- The integers whose magnitude fits an int64: all of them but the least.
abbrev pub InRange : ℤ → Type 0
InRange (pos n) = n ≤ max_int64
InRange (negsuc n) = suc n ≤ max_int64

-- What strconv writes of an int64 other than the least one, parseInt reads back.
pub parse_int-itoa : (z : ℤ) → InRange z → parse_int (itoa z) ≡ ok z
unfolding itoa signed negate
parse_int-itoa (pos n) h =
    rw
      (
        parse_int-digits (decimal n) (decimal_nonempty n) (decimal-AreDigits n),
        parse_digits-decimal n h,
      )
      refl
parse_int-itoa (negsuc n) h =
    rw
      (parse_int-minus (decimal (suc n)) (decimal_nonempty (suc n)), parse_digits-decimal (suc n) h)
      refl
