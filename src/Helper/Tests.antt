-- ===== src/Helper/Tests.antt =====
-- The addresses of a host with both families, and a host with a port.
use rathole_ng.Prelude.{◌≡◌, refl, true, not, ◌&&◌, ◌||◌, none, some, List, [], ◌∷◌, ◌++◌, arith}
use rathole_ng.Net.{SocketAddr}
use rathole_ng.Config.{Text}
use rathole_ng.Config.Validation.{http, is_set, is_proxy_known}
use rathole_ng.Config.Decimal.{decimal}
use rathole_ng.Helper.{HostPort, host_port_pair, udp_connect, find_family}
use rathole_ng.Helper.Addresses.{host_port_pair-append}
use rathole_ng.Helper.Connect.{Url, new, tcp_connect_with_proxy, panicked, has_colon, proxy_panics}

-- "::1"
abbrev host : Text
host = 58 ∷ 58 ∷ 49 ∷ []

host_port_pair-append_example : host_port_pair (host ++ 58 ∷ decimal 1080) ≡ HostPort.ok host 1080
host_port_pair-append_example = host_port_pair-append host 1080 (omega arith)

abbrev four : SocketAddr
four = SocketAddr.v4 (127 ∷ 0 ∷ 0 ∷ 1 ∷ []) 80

abbrev six : SocketAddr
six = SocketAddr.v6 [] 80 0 0

abbrev found : List SocketAddr
found = four ∷ six ∷ []

six_chosen : udp_connect (some found) true ≡ some (true, six)
unfolding udp_connect find_family
six_chosen = refl

-- http://10.0.0.1:80, whose port is the default one.
abbrev proxy_url : Text → Url
proxy_url text = record {
  scheme = http;
  host_str = some (49 ∷ 48 ∷ []);
  port = none;
  username = [];
  password = none;
}

proxy_is_known : is_proxy_known (λ t. (proxy_url t).scheme) (some []) ≡ true
unfolding is_proxy_known
proxy_is_known = ground arith

proxy_panics_example :
    panicked (tcp_connect_with_proxy true (new (104 ∷ 58 ∷ 49 ∷ [])) (some (proxy_url []))) ≡ (
      not (is_set (proxy_url []).host_str)
      || not (is_set (proxy_url []).port)
      || (true && not (has_colon (new (104 ∷ 58 ∷ 49 ∷ [])).addr)))
proxy_panics_example = proxy_panics proxy_url [] true (new (104 ∷ 58 ∷ 49 ∷ [])) proxy_is_known
