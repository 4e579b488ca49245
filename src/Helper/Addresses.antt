-- ===== src/Helper/Addresses.antt =====
-- What the helpers find in an address.
use rathole_ng.Prelude.{
  ℕ, ◌<◌, ◌≡◌, refl, ◌⊎◌, Bool, true, false, none, some, List, [], ◌∷◌, ◌++◌, arith, if◌then◌else◌,
  inl, inr, Option-cases, Bool-cases,
}
use rathole_ng.Net.{SocketAddr, is_ipv6}
use rathole_ng.Config.{Text}
use rathole_ng.Config.Decimal.{
  decimal, AreDigits, IsPlain, show_digits-AreDigits, parse_u16-decimal,
}
use rathole_ng.Helper.{HostPort, rsplit, host_port_pair, find_family, udp_connect}

rsplit_plain : (sep : ℕ) (s : Text) → IsPlain sep s → rsplit sep s ≡ none
unfolding rsplit
rsplit_plain sep [] h = refl
rsplit_plain sep (c ∷ s) h = rw (rsplit_plain sep s h.1, h.0) refl

rsplit-append : (sep : ℕ) (a b : Text) → IsPlain sep b → rsplit sep (a ++ sep ∷ b) ≡ some (a, b)
unfolding rsplit
rsplit-append sep [] b h = rw (rsplit_plain sep b h) (ground arith)
rsplit-append sep (c ∷ a) b h = rw (rsplit-append sep a b h) refl

-- A host and a port in decimal, with a colon between them, come apart as they were, even where
-- the host has colons, as an IPv6 address does.
pub host_port_pair-append :
    (host : Text) (port : ℕ)
    → port < 65_536
    → host_port_pair (host ++ 58 ∷ decimal port) ≡ HostPort.ok host port
unfolding host_port_pair
host_port_pair-append host port lt =
    rw
      (
        host_port_pair,
        rsplit-append 58 host (decimal port) (digits_no_colon port),
        parse_u16-decimal port lt,
      )
      refl
  where
    no_colon : (s : Text) → AreDigits s → IsPlain 58 s
    no_colon [] h = tt
    no_colon (c ∷ s) h = (ground arith, no_colon s h.2)

    digits_no_colon : (n : ℕ) → IsPlain 58 (decimal n)
    digits_no_colon n = no_colon (decimal n) (show_digits-AreDigits 5 n)

-- One of the addresses.
abbrev pub IsAmong : SocketAddr → List SocketAddr → Type 0
IsAmong a [] = ⊥
IsAmong a (b ∷ more) = (a ≡ b) ⊎ IsAmong a more

unfoldable pub has_ipv6 : List SocketAddr → Bool
has_ipv6 [] = false
has_ipv6 (a ∷ more) = let rest = has_ipv6 more in if is_ipv6 a then true else rest

find_family_lem :
    (v6 : Bool) (all : List SocketAddr) (a : SocketAddr)
    → find_family v6 all ≡ some a
    → IsAmong a all × (is_ipv6 a ≡ v6)
unfolding find_family
find_family_lem true [] a e = absurd (ground arith)
find_family_lem false [] a e = absurd (ground arith)
find_family_lem true (b ∷ all) a e = elim (Bool-cases (is_ipv6 b)) [
  | inl six ↦ let same : a ≡ b = ground arith in (inl same, ground arith)
  | inr four ↦ let rest = find_family_lem true all a (ground arith) in (inr rest.0, rest.1)
]
find_family_lem false (b ∷ all) a e = elim (Bool-cases (is_ipv6 b)) [
  | inl six ↦ let rest = find_family_lem false all a (ground arith) in (inr rest.0, rest.1)
  | inr four ↦ let same : a ≡ b = ground arith in (inl same, ground arith)
]

find_ipv6_iff :
    (all : List SocketAddr)
    → has_ipv6 all ≡ elim (find_family true all) [ none ↦ false | some _ ↦ true ]
unfolding find_family has_ipv6
find_ipv6_iff [] = refl
find_ipv6_iff (a ∷ all) = ground (arith, find_ipv6_iff all)

-- Where IPv6 is preferred, the address that is chosen is one of those found, the socket is bound for
-- its family, and that family is IPv6 exactly when some address found is one.
pub udp_connect_prefers :
    (all : List SocketAddr) (v6 : Bool) (a : SocketAddr)
    → udp_connect (some all) true ≡ some (v6, a)
    → IsAmong a all × (is_ipv6 a ≡ v6) × (v6 ≡ has_ipv6 all)
unfolding udp_connect
udp_connect_prefers all v6 a e = elim (Option-cases (find_family true all)) [
  | inl e2 ↦ elim (Option-cases (find_family false all)) [
    | inl e3 ↦ absurd (ground arith)
    | inr (b, e3) ↦
        let (among, family) = find_family_lem false all b e3 in
        let same : a ≡ b = ground arith in
        let four : v6 ≡ false = ground arith in
        (rw same among, rw (same, four) family, ground (arith, find_ipv6_iff all))
  ]
  | inr (b, e2) ↦
      let (among, family) = find_family_lem true all b e2 in
      let same : a ≡ b = ground arith in
      let six : v6 ≡ true = ground arith in
      (rw same among, rw (same, six) family, ground (arith, find_ipv6_iff all))
]
