-- ===== src/Resp/Examples.antt =====
-- The RESP codec at concrete bytes.
use gortexa.Common.{nat_eq, [], ◌∷◌, ◌++◌, ◌≡◌, refl, arith}
use gortexa.Common.Int.{negsuc}
use gortexa.Common.Result.{ok, err}
use gortexa.Resp.Number.{integer_overflow, parse_int, itoa}
use gortexa.Resp.Number.Roundtrip.{parse_int-itoa}
use gortexa.Resp.Codec.{string, bulk, read_reply, read_line}
use gortexa.Resp.Codec.Bulk.{read_reply-bulk}

parse_int-itoa_example : parse_int (itoa (negsuc 41)) ≡ ok (negsuc 41)
parse_int-itoa_example = parse_int-itoa (negsuc 41) (omega arith)

-- The least int64 is written and not read back.
least_int64 : parse_int (itoa (negsuc 9223372036854775807)) ≡ err integer_overflow
unfolding parse_int itoa
least_int64 = refl

read_reply-bulk_example :
    read_reply (bulk (13 ∷ 10 ∷ 36 ∷ []) ++ 43 ∷ 79 ∷ [])
    ≡ ok (string (13 ∷ 10 ∷ 36 ∷ []), 43 ∷ 79 ∷ [])
read_reply-bulk_example = read_reply-bulk (13 ∷ 10 ∷ 36 ∷ []) (43 ∷ 79 ∷ []) (omega arith)

ok_line : read_line (79 ∷ 75 ∷ 13 ∷ 10 ∷ 36 ∷ []) ≡ ok (79 ∷ 75 ∷ [], 36 ∷ [])
unfolding read_line
ok_line = refl
