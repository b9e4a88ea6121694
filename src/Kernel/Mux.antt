-- ===== src/Kernel/Mux.antt =====
-- kernel/mux.go and app.go: the dispatch of the one port, its readiness endpoint, and the deadline of
-- the first message. http.ServeMux matches a path that it has cleaned, and is exact on these patterns.
pub mod Readiness
use gortexa.Common.{
  ℕ, suc, String, string_eq, nat_eq, Bool, true, false, Option, none, some, List, [], ◌∷◌, ◌==◌,
  ◌&&◌, ◌*◌, not, if◌then◌else◌, ltb,
}
use gortexa.Common.Dict.{Dict}
use gortexa.Common.Int.{ℤ, pos, negsuc}
use gortexa.Common.Text.{codes}
use gortexa.Health.{
  State, healthy, rank, state_name, is_serving, Registry, Probe, draining, cached_snapshot, worst,
}

-- In nanoseconds.
abbrev pub default_grpc_first_message_timeout : ℕ
default_grpc_first_message_timeout = 30 * 1000000000

-- firstMessageTimeout
unfoldable pub first_message_timeout : ℤ → ℕ
first_message_timeout (pos ℕ.zero) = default_grpc_first_message_timeout
first_message_timeout (pos (suc n)) = suc n
first_message_timeout (negsuc n) = 0

-- strings.HasPrefix
unfoldable pub has_prefix : List ℕ → List ℕ → Bool
has_prefix text [] = true
has_prefix [] (p ∷ ps) = false
has_prefix (c ∷ cs) (p ∷ ps) = let rest = has_prefix cs ps in if c == p then rest else false

pub data Target : Type 0 where
  grpc mcp healthz readyz gateway not_found : Target

-- Which of the optional handlers an app has.
pub record Handlers : Type 0 where
  pub grpc : Bool
  pub mcp : Bool
  pub gateway : Bool

to_root : Handlers → Target
to_root h = if h.gateway then gateway else not_found

-- The handler `root` of newMux.
unfoldable pub root_target : Handlers → String → Target
unfolding to_root
root_target h path =
    if h.mcp && path == "/mcp"
    then mcp
    else if path == "/healthz"
    then healthz
    else if path == "/readyz"
    then readyz
    else to_root h

-- newMux
unfoldable pub mux_target : Handlers → ℕ → String → String → Target
unfolding root_target has_prefix
mux_target h proto_major content_type path =
    if h.grpc && (proto_major == 2 && has_prefix (codes content_type) (codes "application/grpc"))
    then grpc
    else root_target h path

-- firstReadClears: whether it has cleared the deadline, and how often it did.
pub record FirstRead : Type 0 where
  pub cleared : Bool
  pub clears : ℕ

-- clearOnce
unfoldable pub clear_once : FirstRead → FirstRead
clear_once b = if b.cleared then b else record { cleared = true; clears = suc b.clears }

-- Read, of so many bytes
unfoldable pub read : FirstRead → ℕ → FirstRead
unfolding clear_once
read b n = if ltb 0 n then clear_once b else b

-- The reads that a handler makes.
unfoldable pub reads : FirstRead → List ℕ → FirstRead
unfolding read
reads b [] = b
reads b (n ∷ ns) = reads (read b n) ns

-- A call under the deadline: the reads of the handler, and clearOnce as it returns.
unfoldable pub serve_once : List ℕ → FirstRead
unfolding reads
serve_once ns = clear_once (reads (record { cleared = false; clears = 0 }) ns)

-- What handleReadyz answers, whether notReady is set after it, and whether it logs.
pub record Readyz : Type 0 where
  pub code : ℕ
  pub status : String
  pub checks : Dict String String
  pub not_ready : Bool
  pub warns : Bool

-- The loop of handleReadyz: the worst state so far, and the names that go into the answer.
unfoldable pub readyz_loop : State → Dict String State → State × Dict String String
unfolding rank
readyz_loop overall [] = (overall, [])
readyz_loop overall ((name, st) ∷ snap) =
    let rest = readyz_loop (if ltb (rank overall) (rank st) then st else overall) snap in
    (rest.0, (name, state_name st) ∷ rest.1)

unfoldable pub readyz_of : Bool → State × Dict String String → Readyz
readyz_of was (overall, checks) =
    if is_serving overall
    then record {
      code = 200;
      status = state_name overall;
      checks = checks;
      not_ready = false;
      warns = false;
    }
    else record {
      code = 503;
      status = state_name overall;
      checks = checks;
      not_ready = true;
      warns = not was;
    }

-- handleReadyz, with its call of CachedSnapshot.
unfoldable pub handle_readyz : Probe → Bool → Registry → Registry × Readyz
unfolding readyz_loop readyz_of
handle_readyz p was r =
    let read_back = cached_snapshot p r in
    if draining r
    then (
      r,
      record { code = 503; status = "draining"; checks = []; not_ready = was; warns = false },
    )
    else (read_back.0, readyz_of was (readyz_loop healthy read_back.1))
