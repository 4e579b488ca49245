-- ===== src/Helper.antt =====
-- src/helper.rs and src/transport/mod.rs: addresses, and the options of a socket.
-- The lookup of a host is an argument, `none` for an error.
pub mod Addresses
pub mod Connect
mod Tests
use rathole_ng.Prelude.{
  ℕ, Bool, true, false, Option, none, some, List, [], ◌∷◌, ◌==◌, if◌then◌else◌,
}
use rathole_ng.Net.{SocketAddr, is_ipv6}
use rathole_ng.Config.{Text, TcpConfig, ClientServiceConfig, ServerServiceConfig}
use rathole_ng.Config.Ports.{parse_u16}

-- `expect` panics.
pub data HostPort : Type 0 where
  ok : Text → ℕ → HostPort
  not_a_port panics : HostPort

abbrev pub in_host : ℕ → Option (Text × Text) → Option (Text × Text)
in_host c none = none
in_host c (some (host, rest)) = some (c ∷ host, rest)

-- The texts before and after the last one of a character, as `rfind` finds it.
unfoldable pub rsplit : ℕ → Text → Option (Text × Text)
rsplit sep [] = none
rsplit sep (c ∷ cs) = elim (rsplit sep cs) [
  | some found ↦ in_host c (some found)
  | none ↦ if c == sep then some ([], cs) else none
]

unfoldable pub host_port_pair : Text → HostPort
host_port_pair s = elim (rsplit 58 s) [
  | none ↦ HostPort.panics
  | some (host, rest) ↦ elim (parse_u16 rest) [
    | none ↦ HostPort.not_a_port
    | some port ↦ HostPort.ok host port
  ]
]

-- `lookup_host(addr).await?.next()`
unfoldable pub to_socket_addr : Option (List SocketAddr) → Option SocketAddr
to_socket_addr none = none
to_socket_addr (some []) = none
to_socket_addr (some (a ∷ _)) = some a

-- The first address of a family: IPv6 for `true`.
unfoldable pub find_family : Bool → List SocketAddr → Option SocketAddr
find_family true [] = none
find_family true (a ∷ more) = let rest = find_family true more in if is_ipv6 a then some a else rest
find_family false [] = none
find_family false (a ∷ more) =
    let rest = find_family false more in if is_ipv6 a then rest else some a

-- The address that a socket binds to: ":::0" for `true`, "0.0.0.0:0" for `false`.
abbrev pub bind_to : SocketAddr → Bool × SocketAddr
bind_to a = (is_ipv6 a, a)

-- The choice of `udp_connect`: the family of the bind address, and the address to connect to.
unfoldable pub udp_connect : Option (List SocketAddr) → Bool → Option (Bool × SocketAddr)
udp_connect found false = elim (to_socket_addr found) [ none ↦ none | some a ↦ some (bind_to a) ]
udp_connect none true = none
udp_connect (some all) true = elim (find_family true all) [
  | some a ↦ some (true, a)
  | none ↦ elim (find_family false all) [ none ↦ none | some a ↦ some (false, a) ]
]

pub record Keepalive : Type 0 where
  pub keepalive_secs : ℕ
  pub keepalive_interval : ℕ

-- `none` leaves an option as it is.
pub record SocketOpts : Type 0 where
  pub nodelay : Option Bool
  pub keepalive : Option Keepalive

unfoldable pub for_control_channel : SocketOpts
for_control_channel = record { nodelay = some true; keepalive = none }

unfoldable pub from_cfg : TcpConfig → SocketOpts
from_cfg cfg = record {
  nodelay = some cfg.nodelay;
  keepalive =
      some (record {
        keepalive_secs = cfg.keepalive_secs;
        keepalive_interval = cfg.keepalive_interval;
      });
}

unfoldable pub from_client_cfg : ClientServiceConfig → SocketOpts
from_client_cfg cfg = record { nodelay = cfg.nodelay; keepalive = none }

unfoldable pub from_server_cfg : ServerServiceConfig → SocketOpts
from_server_cfg cfg = record { nodelay = cfg.nodelay; keepalive = none }

abbrev pub or_kept {ℓ} : {A : Type ℓ} → Option A → Option A → Option A
or_kept none before = before
or_kept (some a) before = some a

-- The options of a socket after `apply`, where each call of the system succeeds.
unfoldable pub apply : SocketOpts → SocketOpts → SocketOpts
apply opts conn = record {
  nodelay = or_kept opts.nodelay conn.nodelay;
  keepalive = or_kept opts.keepalive conn.keepalive;
}
