-- ===== src/Resp/Codec/Bulk.antt =====
-- internal/resp/resp.go: the framing of replies.
use gortexa.Common.{
  ℕ, zero, suc, nat_eq, true, false, List, [], ◌∷◌, ◌++◌, ◌+◌, ◌≤◌, ◌<◌, ◌≡◌, ◌≢◌, arith, refl,
  length, take, drop, some, All, ap, length-append, ◌∙◌, ◌/◌, ◌%◌,
}
use mathlib.Core.List.{append_assoc}
use gortexa.Common.Int.{pos}
use gortexa.Common.Result.{ok}
use gortexa.Resp.Number.{is_digit, max_int64, parse_int, itoa, decimal, decimal_from}
use gortexa.Resp.Number.Roundtrip.{parse_int-itoa, decimal-AreDigits}
use gortexa.Resp.Codec.{
  max_bulk_len, buffer_len, crlf, scan, chop, fragment, read_fragment, read_line, reply_of,
  read_bulk, payload_of, terminated, as_number, read_reply, string, bulk,
}

-- The bytes of a line: no newline and no carriage return.
abbrev pub IsPlain : List ℕ → Type 0
IsPlain = All (λ b. (b ≢ 10) × (b ≢ 13))

scan-line :
    (k : ℕ) (line rest : List ℕ)
    → IsPlain line
    → length line + 1 < k
    → scan k (line ++ (crlf ++ rest)) ≡ (line ++ 13 ∷ [], true, rest)
unfolding scan
scan-line zero line rest a h = absurd (omega arith)
scan-line (suc zero) line rest a h = absurd (omega arith)
scan-line (suc (suc k)) [] rest a h = refl
scan-line (suc k) (b ∷ line) rest a h = ground (arith, scan-line k line rest)

chop-line : (line : List ℕ) → chop (line ++ 13 ∷ []) ≡ (line, true)
unfolding chop
chop-line [] = refl
chop-line (b ∷ []) = refl
chop-line (b ∷ c ∷ line) = rw (chop-line (c ∷ line)) refl

take-append : (s rest : List ℕ) → take (length s) (s ++ rest) ≡ s
take-append [] rest = refl
take-append (b ∷ s) rest = ap (◌∷◌ b) (take-append s rest)

drop-append : (s rest : List ℕ) → drop (length s) (s ++ rest) ≡ rest
drop-append [] rest = refl
drop-append (b ∷ s) rest = drop-append s rest

read_fragment-line :
    (b : ℕ) (bs line rest : List ℕ)
    → scan buffer_len (b ∷ bs) ≡ (line ++ 13 ∷ [], true, rest)
    → read_fragment (b ∷ bs) ≡ some (line, false, rest)
unfolding read_fragment
read_fragment-line b bs line rest h =
    ap (λ s. some (fragment s)) h ∙ ap (λ c. some (c.0, false, rest)) (chop-line line)

read_line-fragment :
    (bs line rest : List ℕ)
    → read_fragment bs ≡ some (line, false, rest)
    → read_line bs ≡ ok (line, rest)
unfolding read_line
read_line-fragment bs line rest h = rw (h, read_line) refl

-- A short line that ends in CRLF is read whole, and what follows it is left.
read_line-crlf :
    (line rest : List ℕ)
    → IsPlain line
    → length line + 1 < buffer_len
    → read_line (line ++ (crlf ++ rest)) ≡ ok (line, rest)
read_line-crlf [] rest a h =
    read_line-fragment (crlf ++ rest) [] rest
      (read_fragment-line 13 (10 ∷ rest) [] rest (scan-line buffer_len [] rest a h))
read_line-crlf (b ∷ line) rest a h =
    read_line-fragment (b ∷ (line ++ (crlf ++ rest))) (b ∷ line) rest (
      read_fragment-line b (line ++ (crlf ++ rest)) (b ∷ line) rest
        (scan-line buffer_len (b ∷ line) rest a h))

length-decimal_from-le :
    (fuel n : ℕ) (out : List ℕ) → length (decimal_from fuel n out) ≤ fuel + length out
unfolding decimal_from
length-decimal_from-le zero n out = omega arith
length-decimal_from-le (suc fuel) n out =
    ground (arith, length-decimal_from-le fuel (n / 10) ((b'0' + n % 10) ∷ out))

length-decimal-le : (n : ℕ) → length (decimal n) ≤ 19
unfolding decimal
length-decimal-le n = omega (arith, length-decimal_from-le 19 n [])

IsPlain-of_digits : (bs : List ℕ) → All (λ b. is_digit b ≡ true) bs → IsPlain bs
IsPlain-of_digits [] a = tt
IsPlain-of_digits (b ∷ bs) a = ((λ e. ground arith, λ e. ground arith), IsPlain-of_digits bs a.1)

payload_of-append :
    (s rest : List ℕ) → payload_of (length s) (s ++ (crlf ++ rest)) ≡ ok (string s, rest)
unfolding payload_of terminated
payload_of-append s rest = ground (
  arith,
  length-append s (crlf ++ rest),
  take-append s (crlf ++ rest),
  drop-append s (crlf ++ rest),
)

parse_int-decimal : (n : ℕ) → n ≤ max_int64 → parse_int (decimal n) ≡ ok (pos n)
unfolding itoa
parse_int-decimal n h = parse_int-itoa (pos n) h

reply_of-bulk :
    (s rest : List ℕ)
    → length s ≤ max_bulk_len
    → reply_of (b'$' ∷ decimal (length s)) (s ++ (crlf ++ rest)) ≡ ok (string s, rest)
unfolding reply_of read_bulk as_number
reply_of-bulk s rest h =
    rw (parse_int-decimal (length s) (omega (arith, h))) (ground (arith, payload_of-append s rest))

bulk-append :
    (s rest : List ℕ)
    → bulk s ++ rest ≡ (b'$' ∷ decimal (length s)) ++ (crlf ++ (s ++ (crlf ++ rest)))
unfolding bulk
bulk-append s rest = simp append_assoc

-- readReply gives back any payload of up to 512 MiB that is framed as a bulk string, whatever bytes
-- it holds, and leaves exactly the bytes that follow the frame.
pub read_reply-bulk :
    (s rest : List ℕ) → length s ≤ max_bulk_len → read_reply (bulk s ++ rest) ≡ ok (string s, rest)
unfolding read_reply
read_reply-bulk s rest h =
    rw
      (
        bulk-append s rest,
        read_line-crlf (b'$' ∷ decimal (length s)) (s ++ (crlf ++ rest))
            (
              ((λ e. ground arith), λ e. ground arith),
              IsPlain-of_digits (decimal (length s)) (decimal-AreDigits (length s)),
            )
            (omega (arith, length-decimal-le (length s))),
      )
      (reply_of-bulk s rest h)
