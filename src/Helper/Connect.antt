-- ===== src/Helper/Connect.antt =====
-- src/helper.rs and src/transport/mod.rs: the address of the server, and how a TCP connection to it
-- is made, with or without a proxy.
-- A URL is what its accessors give: as the package documents, `port` is `none` also where the URL
-- names the default port of its scheme.
use rathole_ng.Prelude.{
  ℕ, ◌≡◌, refl, Bool, true, false, not, ◌&&◌, ◌||◌, ◌==◌, Option, none, some, List, [], ◌∷◌, ite,
  arith, if◌then◌else◌,
}
use rathole_ng.Net.{SocketAddr}
use rathole_ng.Config.{Text, text_discrete}
use rathole_ng.Config.Validation.{socks5, http, is_set, is_proxy_known}
use rathole_ng.Helper.{HostPort, rsplit, host_port_pair, to_socket_addr}

pub record AddrMaybeCached : Type 0 where
  pub addr : Text
  pub socket_addr : Option SocketAddr

unfoldable pub new : Text → AddrMaybeCached
new addr = record { addr = addr; socket_addr = none }

-- The address after `resolve`, and whether that is `Ok`.
unfoldable pub resolve :
    (Text → Option (List SocketAddr)) → AddrMaybeCached → AddrMaybeCached × Bool
resolve lookup a = elim (to_socket_addr (lookup a.addr)) [
  | none ↦ (a, false)
  | some s ↦ (record a { socket_addr = some s }, true)
]

-- `Display`
unfoldable pub fmt : (SocketAddr → Text) → AddrMaybeCached → Text
fmt show a = elim a.socket_addr [ none ↦ a.addr | some s ↦ show s ]

pub record Url : Type 0 where
  pub scheme : Text
  pub host_str : Option Text
  pub port : Option ℕ
  pub username : Text
  pub password : Option Text

pub record ProxyAuth : Type 0 where
  pub username : Text
  pub password : Text

-- What is connected to: an address, a name that the system resolves, or a host and a port through a
-- proxy. Otherwise an error, or a panic.
pub data TcpConnect : Type 0 where
  to_addr : SocketAddr → TcpConnect
  to_name : Text → TcpConnect
  over_socks5 over_http : Text → ℕ → Option ProxyAuth → TcpConnect
  err panics : TcpConnect

abbrev pub is_empty : Text → Bool
is_empty [] = true
is_empty (_ ∷ _) = false

abbrev pub password_or_empty : Option Text → Text
password_or_empty none = []
password_or_empty (some p) = p

unfoldable pub auth_of : Url → Option ProxyAuth
auth_of url =
    if not (is_empty url.username) || is_set url.password
    then some (record { username = url.username; password = password_or_empty url.password })
    else none

-- The rest of the branch of a scheme: `host_port_pair(addr)?` and the handshake of the proxy.
unfoldable pub through : (Text → ℕ → TcpConnect) → Text → TcpConnect
through connect addr = elim (host_port_pair addr) [
  | HostPort.panics ↦ TcpConnect.panics
  | HostPort.not_a_port ↦ TcpConnect.err
  | HostPort.ok host port ↦ connect host port
]

-- The match on the proxy's scheme.
unfoldable pub by_scheme : Text → Url → TcpConnect
unfolding through auth_of
by_scheme addr url =
    ite (text_discrete url.scheme socks5)
      (through (λ host port. TcpConnect.over_socks5 host port (auth_of url)) addr)
      (ite (text_discrete url.scheme http)
        (through (λ host port. TcpConnect.over_http host port (auth_of url)) addr)
        TcpConnect.panics)

-- Whether the connection to the proxy itself is made is an argument.
unfoldable pub tcp_connect_with_proxy : Bool → AddrMaybeCached → Option Url → TcpConnect
unfolding by_scheme
tcp_connect_with_proxy connected a (some url) = elim url.host_str [
  | none ↦ TcpConnect.panics
  | some _ ↦ elim url.port [
    | none ↦ TcpConnect.panics
    | some _ ↦ if connected then by_scheme a.addr url else TcpConnect.err
  ]
]
tcp_connect_with_proxy connected a none = elim a.socket_addr [
  | some s ↦ TcpConnect.to_addr s
  | none ↦ TcpConnect.to_name a.addr
]

abbrev pub panicked : TcpConnect → Bool
panicked TcpConnect.panics = true
panicked TcpConnect.err = false
panicked (TcpConnect.to_addr _) = false
panicked (TcpConnect.to_name _) = false
panicked (TcpConnect.over_socks5 _ _ _) = false
panicked (TcpConnect.over_http _ _ _) = false

unfoldable pub has_colon : Text → Bool
has_colon [] = false
has_colon (c ∷ cs) = c == 58 || has_colon cs

rsplit_colon : (s : Text) → is_set (rsplit 58 s) ≡ has_colon s
unfolding rsplit has_colon
rsplit_colon [] = refl
rsplit_colon (c ∷ cs) = ground (arith, rsplit_colon cs)

-- With a proxy that passes the validation, a connection panics exactly when the URL gives no host or
-- no port, or when the proxy is reached and the server's address has no colon.
pub proxy_panics :
    (url_of : Text → Url) (proxy : Text) (connected : Bool) (a : AddrMaybeCached)
    → is_proxy_known (λ t. (url_of t).scheme) (some proxy) ≡ true
    → let url = url_of proxy in
      panicked (tcp_connect_with_proxy connected a (some url)) ≡ (
        not (is_set url.host_str) || not (is_set url.port) || (connected && not (has_colon a.addr)))
unfolding tcp_connect_with_proxy by_scheme through is_proxy_known host_port_pair
proxy_panics url_of proxy connected a known = ground (arith, rsplit_colon a.addr)
