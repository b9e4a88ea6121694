-- ===== src/Resp/Codec.antt =====
-- internal/resp/resp.go: writeCommand and readReply over bytes. The bufio.Writer appends to its
-- output, and the bufio.Reader has the bytes that the peer still sends before it closes; its
-- ReadLine, whose buffer holds 4096 bytes, is modelled as Go's standard library has it.
pub mod Bulk
pub mod Lines
use gortexa.Common.{
  ℕ, zero, suc, nat_eq, Bool, true, false, List, [], ◌∷◌, ◌++◌, ◌+◌, ◌-◌, ◌≤◌, ◌<◌, ◌==◌, ◌||◌,
  ◌&&◌, not, if◌then◌else◌, ltb, leb, length, take, drop, Option, none, some,
}
use gortexa.Common.Int.{ℤ, pos, negsuc}
use gortexa.Common.Result.{Result, ok, err, ◌>>=◌}
use gortexa.Resp.Number.{NumberError, parse_int, itoa, decimal}

-- maxBulkLen and maxLineLen
abbrev pub max_bulk_len : ℕ
max_bulk_len = 536870912

abbrev pub max_line_len : ℕ
max_line_len = 65536

abbrev pub buffer_len : ℕ
buffer_len = 4096

-- The arguments that writeCommand takes; any other type is `unsupported`.
pub data Arg : Type 0 where
  text : List ℕ → Arg
  bytes : List ℕ → Arg
  int : ℤ → Arg
  int64 : ℤ → Arg
  unsupported : Arg

abbrev pub crlf : List ℕ
crlf = 13 ∷ 10 ∷ []

unfoldable pub arg_bytes : Arg → Option (List ℕ)
arg_bytes (text s) = some s
arg_bytes (bytes s) = some s
arg_bytes (int z) = some (itoa z)
arg_bytes (int64 z) = some (itoa z)
arg_bytes unsupported = none

unfoldable pub bulk : List ℕ → List ℕ
bulk s = b'$' ∷ (decimal (length s) ++ (crlf ++ (s ++ crlf)))

-- The loop of writeCommand: what it has written, and whether it ended without an error.
unfoldable pub write_args : List Arg → List ℕ × Bool
unfolding arg_bytes
write_args [] = ([], true)
write_args (arg ∷ args) =
    let (rest, done) = write_args args in
    elim (arg_bytes arg) [ none ↦ ([], false) | some s ↦ (bulk s ++ rest, done) ]

-- writeCommand
unfoldable pub write_command : List Arg → List ℕ × Bool
unfolding write_args
write_command args =
    let (rest, done) = write_args args in (b'*' ∷ (decimal (length args) ++ (crlf ++ rest)), done)

-- The errors of readReply; `eof` stands for io.EOF and io.ErrUnexpectedEOF.
pub data ReplyError : Type 0 where
  eof line_too_long empty_line bulk_range not_terminated unexpected_type : ReplyError
  number : NumberError → ReplyError

-- Up to `k` bytes, or up to a newline, which is dropped: the bytes, whether there was one, the rest.
unfoldable pub scan : ℕ → List ℕ → List ℕ × Bool × List ℕ
scan zero bs = ([], false, bs)
scan (suc k) [] = ([], false, [])
scan (suc k) (b ∷ bs) =
    let (line, found, rest) = scan k bs in
    if b == 10 then ([], true, bs) else (b ∷ line, found, rest)

-- A line without a carriage return at its end, and whether it had one.
unfoldable pub chop : List ℕ → List ℕ × Bool
chop [] = ([], false)
chop (b ∷ []) = if b == 13 then ([], true) else (b ∷ [], false)
chop (b ∷ bs) = let (line, had) = chop bs in (b ∷ line, had)

-- bufio.Reader.ReadLine: the line, isPrefix and the rest, or `none` at the end of the input. A line
-- that fills the buffer is a prefix, and gives back a carriage return at its end.
fragment : List ℕ × Bool × List ℕ → List ℕ × Bool × List ℕ
unfolding chop
fragment (line, true, rest) = ((chop line).0, false, rest)
fragment (line, false, rest) =
    if length line == buffer_len
    then ((chop line).0, true, if (chop line).1 then 13 ∷ rest else rest)
    else (line, false, rest)

unfoldable pub read_fragment : List ℕ → Option (List ℕ × Bool × List ℕ)
unfolding scan fragment
read_fragment [] = none
read_fragment (b ∷ bs) = some (fragment (scan buffer_len (b ∷ bs)))

-- The loop of readLine over the fragments of a long line; each takes a byte at least.
read_more : ℕ → List ℕ → List ℕ → Result ReplyError (List ℕ × List ℕ)
unfolding read_fragment
read_more zero full bs = err eof
read_more (suc fuel) full bs = elim (read_fragment bs) [
  | none ↦ err eof
  | some (line, is_prefix, rest) ↦
      if ltb max_line_len (length (full ++ line)) then err line_too_long else elim is_prefix [
        | true ↦ read_more fuel (full ++ line) rest
        | false ↦ ok (full ++ line, rest)
      ]
]

-- readLine
unfoldable pub read_line : List ℕ → Result ReplyError (List ℕ × List ℕ)
unfolding read_more read_fragment
read_line bs = elim (read_fragment bs) [
  | none ↦ err eof
  | some (line, is_prefix, rest) ↦
      if is_prefix then read_more (length rest) line rest else ok (line, rest)
]

-- What readReply returns: a simple or bulk string, an integer, a server error or a null bulk.
pub data Reply : Type 0 where
  string : List ℕ → Reply
  integer : ℤ → Reply
  server_error : List ℕ → Reply
  nil : Reply

as_number : Result NumberError ℤ → Result ReplyError ℤ
as_number (ok z) = ok z
as_number (err e) = err (number e)

-- io.ReadFull of two bytes, and the check of the terminator.
terminated : List ℕ → List ℕ → Result ReplyError (Reply × List ℕ)
terminated payload (a ∷ b ∷ rest) =
    if not (a == 13) || not (b == 10) then err not_terminated else ok (string payload, rest)
terminated payload _ = err eof

-- io.CopyN of the payload.
payload_of : ℕ → List ℕ → Result ReplyError (Reply × List ℕ)
unfolding terminated
payload_of n bs = if ltb (length bs) n then err eof else terminated (take n bs) (drop n bs)

read_bulk : ℤ → List ℕ → Result ReplyError (Reply × List ℕ)
unfolding payload_of
read_bulk (negsuc zero) bs = ok (nil, bs)
read_bulk (negsuc (suc n)) bs = err bulk_range
read_bulk (pos n) bs = if ltb max_bulk_len n then err bulk_range else payload_of n bs

unfoldable pub reply_of : List ℕ → List ℕ → Result ReplyError (Reply × List ℕ)
unfolding as_number read_bulk
reply_of [] rest = err empty_line
reply_of (b ∷ body) rest =
    if b == b'+'
    then ok (string body, rest)
    else if b == b'-'
    then ok (server_error body, rest)
    else if b == b':'
    then (do z ← as_number (parse_int body); ok (integer z, rest))
    else if b == b'$'
    then (do n ← as_number (parse_int body); read_bulk n rest)
    else err unexpected_type

-- readReply, with what it leaves of the input.
unfoldable pub read_reply : List ℕ → Result ReplyError (Reply × List ℕ)
read_reply bs = do (line, rest) ← read_line bs; reply_of line rest
