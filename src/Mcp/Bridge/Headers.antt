-- ===== src/Mcp/Bridge/Headers.antt =====
-- mcp/bridge.go: the origins that are allowed, and the headers that are forwarded.
use gortexa.Common.{
  String, string_eq, nat_eq, Bool, true, List, [], ◌∷◌, ◌==◌, ◌||◌, ◌&&◌, not, ◌≡◌, refl, arith,
  All, if_elim,
}
use text.Mathlib.TextEquality.{eq_iff}
use gortexa.Common.Dict.{Dict, insert, erase}
use gortexa.Common.Members.{contains}
use gortexa.HttpLimits.{printable_ascii}
use gortexa.Interceptor.RequestId.{
  valid_request_id, valid_request_id-printable_ascii, request_id_metadata_key,
}
use gortexa.Mcp.Bridge.{Wire, set_allowed_origins, origin_allowed}
use gortexa.Mcp.Bridge.Call.{
  HttpRequest, outgoing_metadata, set_if, forwards, client_ip, authorization_key, peer_ip_meta_key,
}

contains-set_allowed_origins :
    (os : List String) (origin : String)
    → contains (set_allowed_origins os) origin ≡ (contains os origin && not (origin == "*"))
unfolding set_allowed_origins contains
contains-set_allowed_origins [] origin = refl
contains-set_allowed_origins (o ∷ os) origin = ground (
  arith,
  contains-set_allowed_origins os origin,
  eq_iff o "*",
  eq_iff o origin,
  eq_iff origin "*",
)

-- A request is let through if it has no origin or one that is configured; the origin * never is one,
-- configured or not.
pub origin_allowed-set_allowed_origins :
    (os : List String) (origin : String)
    → origin_allowed (set_allowed_origins os) origin
      ≡ (origin == "" || (contains os origin && not (origin == "*")))
unfolding origin_allowed
origin_allowed-set_allowed_origins os origin =
    ground (arith, contains-set_allowed_origins os origin)

-- The values of metadata that gRPC takes.
abbrev pub AllPrintable : Dict String String → Type 0
AllPrintable md = All (λ kv. printable_ascii kv.1 ≡ true) md

AllPrintable-erase :
    (key : String) (md : Dict String String) → AllPrintable md → AllPrintable (erase key md)
unfolding erase
AllPrintable-erase key [] a = tt
AllPrintable-erase key ((k, v) ∷ md) a =
    if_elim AllPrintable (k == key) (λ same. AllPrintable-erase key md a.1)
      (λ other. (a.0, AllPrintable-erase key md a.1))

set_if-AllPrintable :
    (test : Bool) (key value : String) (md : Dict String String)
    → (test ≡ true → printable_ascii value ≡ true)
    → AllPrintable md
    → AllPrintable (set_if test key value md)
unfolding set_if insert
set_if-AllPrintable test key value md h a =
    if_elim AllPrintable test (λ set. (h set, AllPrintable-erase key md a)) (λ kept. a)

forwards-printable : (authz : String) → forwards authz ≡ true → printable_ascii authz ≡ true
unfolding forwards
forwards-printable authz h = ground (arith, h)

pub outgoing_metadata-AllPrintable :
    (w : Wire) (r : HttpRequest)
    → printable_ascii (client_ip w r) ≡ true
    → AllPrintable (outgoing_metadata w r)
unfolding outgoing_metadata
outgoing_metadata-AllPrintable w r ip =
    set_if-AllPrintable (not (client_ip w r == "")) peer_ip_meta_key (client_ip w r)
      (set_if (valid_request_id r.request_id) request_id_metadata_key r.request_id
        (set_if (forwards r.authorization) authorization_key r.authorization []))
      (λ given. ip)
      (set_if-AllPrintable (valid_request_id r.request_id) request_id_metadata_key r.request_id
        (set_if (forwards r.authorization) authorization_key r.authorization [])
        (valid_request_id-printable_ascii r.request_id)
        (set_if-AllPrintable (forwards r.authorization) authorization_key r.authorization []
          (forwards-printable r.authorization) tt))
