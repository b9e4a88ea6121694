-- ===== src/Interceptor/RateLimit/Keys.antt =====
-- interceptor/ratelimit.go: whose bucket a call is charged to.
use gortexa.Common.{
  String, string_eq, Option, none, some, ◌≡◌, ◌≢◌, ◌==◌, refl, Bool-cases, inl, inr, if◌then◌else◌,
}
use gortexa.Interceptor.RateLimit.{Addresses, ip_key, peer_key, aggregate, host_of}

module _ (net : Addresses) where
  -- What names a client of an address: an IPv4 address itself, also where it is written as an IPv6
  -- one, the /64 of an IPv6 address, and the text where it is no address.
  abbrev pub client_name : String → Option net.Addr → String
  client_name text none = text
  client_name text (some a) =
      if net.is_4 (net.unmap a) then net.to_string (net.unmap a) else net.masked_64 (net.unmap a)

  -- The name of the client at the other end of a connection, from the host of its address or, where
  -- it has no port, from all of it.
  abbrev pub own_name : String → Option String → String
  own_name addr none = client_name addr (net.parse_addr addr)
  own_name addr (some host) = client_name host (net.parse_addr host)

  aggregate-client_name :
      (text : String) (a : Option net.Addr) → aggregate net text a ≡ client_name text a
  unfolding aggregate
  aggregate-client_name text none = refl
  aggregate-client_name text (some a) = refl

  direct-own_name :
      (addr : String) (split : Option String)
      → ip_key net (host_of net addr split) ≡ own_name addr split
  unfolding ip_key host_of
  direct-own_name addr none = aggregate-client_name addr (net.parse_addr addr)
  direct-own_name addr (some host) = aggregate-client_name host (net.parse_addr host)

pub peer_key-unforged :
    (net : Addresses) (network addr forged : String)
    → network ≢ "bufconn"
    → peer_key net (some (network, addr)) forged ≡ own_name net addr (net.split_host_port addr)
unfolding peer_key
peer_key-unforged net network addr forged external = elim (Bool-cases (network == "bufconn")) [
  | inl loopback ↦ absurd (external ((string_eq.decides network "bufconn").0 loopback))
  | inr outside ↦ rw outside (direct-own_name net addr (net.split_host_port addr))
]
