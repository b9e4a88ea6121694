-- ===== src/Interceptor/RequestId.antt =====
-- interceptor/requestid.go: the request id of a call.
use gortexa.Common.{
  ℕ, String, Bool, true, false, List, [], ◌∷◌, ◌&&◌, ◌||◌, ◌==◌, nat_eq, string_eq, if◌then◌else◌,
  ltb, leb, ◌≡◌, refl, arith, inl, inr, Bool-cases,
}
use gortexa.Common.Text.{codes, byte_length}
use gortexa.HttpLimits.{printable_ascii, all_printable}

abbrev pub request_id_metadata_key : String
request_id_metadata_key = "x-request-id"

abbrev pub max_request_id_len : ℕ
max_request_id_len = 128

abbrev is_between : ℕ → ℕ → ℕ → Bool
is_between low c high = leb low c && leb c high

-- Letters, digits, '-', '_' and '.'.
unfoldable pub is_id_char : ℕ → Bool
is_id_char c =
    is_between 97 c 122 || is_between 65 c 90 || is_between 48 c 57 || c == 45 || c == 95 || c == 46

unfoldable pub all_id_chars : List ℕ → Bool
unfolding is_id_char
all_id_chars [] = true
all_id_chars (c ∷ cs) = let rest = all_id_chars cs in if is_id_char c then rest else false

-- ValidRequestID
unfoldable pub valid_request_id : String → Bool
unfolding all_id_chars
valid_request_id s =
    if s == "" || ltb max_request_id_len (byte_length (codes s))
    then false
    else all_id_chars (codes s)

-- incomingRequestID, on the values of the key in the incoming metadata; "" for no id.
unfoldable pub incoming_request_id : List String → String
unfolding valid_request_id
incoming_request_id [] = ""
incoming_request_id (v ∷ vs) = if valid_request_id v then v else ""

-- The id of RequestID and RequestIDStream; `fresh` is what newRequestID makes.
unfoldable pub request_id : String → List String → String
unfolding incoming_request_id
request_id fresh vs = let own = incoming_request_id vs in if own == "" then fresh else own

id_chars-printable : (cs : List ℕ) → all_id_chars cs ≡ true → all_printable cs ≡ true
unfolding all_id_chars all_printable is_id_char
id_chars-printable [] h = refl
id_chars-printable (c ∷ cs) h = ground (arith, h, id_chars-printable cs)

-- A valid id can stand in metadata.
pub valid_request_id-printable_ascii :
    (s : String) → valid_request_id s ≡ true → printable_ascii s ≡ true
unfolding valid_request_id printable_ascii
valid_request_id-printable_ascii s h = id_chars-printable (codes s) (ground (arith, h))

valid_request_id-nonempty : (s : String) → valid_request_id s ≡ true → (s == "") ≡ false
unfolding valid_request_id
valid_request_id-nonempty s h = ground (arith, h)

-- The id of a call is a valid one, and the caller's when that is valid, whatever metadata the call has.
pub request_id_lem :
    (fresh v : String) (vs : List String)
    → valid_request_id fresh ≡ true
    → (valid_request_id (request_id fresh []) ≡ true)
      × (valid_request_id (request_id fresh (v ∷ vs)) ≡ true)
      × (request_id fresh (v ∷ vs) ≡ (if valid_request_id v then v else fresh))
unfolding request_id incoming_request_id
request_id_lem fresh v vs minted = elim (Bool-cases (valid_request_id v)) [
  | inl mine ↦ rw (mine, valid_request_id-nonempty v mine) (minted, mine, refl)
  | inr bad ↦ rw bad (minted, minted, refl)
]
