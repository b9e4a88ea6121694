-- ===== src/HttpLimits.antt =====
-- internal/httplimits: the bounds and the test on header values that both HTTP surfaces share.
use gortexa.Common.{ℕ, String, Bool, true, false, List, [], ◌∷◌, ◌^◌, ◌||◌, if◌then◌else◌, ltb}
use gortexa.Common.Text.{codes}

abbrev pub max_request_bytes : ℕ
max_request_bytes = 2 ^ 20

-- A character beyond ASCII has only bytes above 0x7E.
unfoldable pub all_printable : List ℕ → Bool
all_printable [] = true
all_printable (c ∷ cs) =
    let rest = all_printable cs in if ltb c 0x20 || ltb 0x7E c then false else rest

-- PrintableASCII
unfoldable pub printable_ascii : String → Bool
unfolding all_printable
printable_ascii s = all_printable (codes s)
