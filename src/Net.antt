-- ===== src/Net.antt =====
-- `std::net::SocketAddr`, as the program uses it.
use rathole_ng.Prelude.{ℕ, Bool, true, false, List}

-- The octets and the port, and for IPv6 the flow information and the scope.
pub data SocketAddr : Type 0 where
  v4 : List ℕ → ℕ → SocketAddr
  v6 : List ℕ → ℕ → ℕ → ℕ → SocketAddr

abbrev pub is_ipv6 : SocketAddr → Bool
is_ipv6 (SocketAddr.v4 _ _) = false
is_ipv6 (SocketAddr.v6 _ _ _ _) = true

abbrev pub port : SocketAddr → ℕ
port (SocketAddr.v4 _ p) = p
port (SocketAddr.v6 _ p _ _) = p

abbrev pub octets : SocketAddr → List ℕ
octets (SocketAddr.v4 o _) = o
octets (SocketAddr.v6 o _ _ _) = o
