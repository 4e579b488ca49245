-- ===== src/Client/Tests.antt =====
-- A client with one service and a server that has it.
use rathole_ng.Prelude.{ℕ, ◌≡◌, refl, true, false, Option, none, some, List, [], ◌∷◌, arith}
use rathole_ng.Collections.HashMap
use rathole_ng.Net.{SocketAddr}
use rathole_ng.Config.{
  Text, text_discrete, ServiceType, ProxyProtocol, TransportType, ClientServiceConfig,
  ServerServiceConfig, TransportConfig, ClientConfig,
}
use rathole_ng.Protocol.{Digest}
use rathole_ng.MultiMap.{MultiMap, get2, find}
use rathole_ng.MultiMap
use rathole_ng.Server.Channel.{ControlEvent}
use rathole_ng.Client.Channel.{Channel, RunInput}
use rathole_ng.Client.Tunnel.{meets}
use rathole_ng.Server.{Server}
use rathole_ng.Server.Reload.{IsServer}
use rathole_ng.Watcher.{
  ConfigChange, ServiceChange, service_changes, same_client, same_map, has_entries, deletions,
  additions, calculate_instance_config_events, client_instance,
}
use rathole_ng.Client.Agreement.{
  registered_id, token_key, client_side, learned, control_handshake_outcome,
}

-- A digest that hides nothing.
abbrev digest : Text → Digest
digest t = t

abbrev ssh : Text
ssh = 115 ∷ 115 ∷ 104 ∷ []

abbrev token : Text
token = 1 ∷ []

abbrev asked : ClientServiceConfig
asked = record {
  service_type = ServiceType.tcp;
  name = ssh;
  local_addr = 5 ∷ [];
  prefer_ipv6 = false;
  user = none;
  token = some token;
  nodelay = none;
  retry_interval = some 1;
  remote_bind_addr = none;
  proxy_protocol = some ProxyProtocol.v2;
}

abbrev service : ServerServiceConfig
service = record {
  service_type = ServiceType.tcp;
  name = ssh;
  bind_addr = 3 ∷ [];
  user = none;
  token = some token;
  nodelay = none;
}

abbrev transport : TransportConfig
transport = record {
  transport_type = TransportType.tcp;
  tcp = record { nodelay = true; keepalive_secs = 20; keepalive_interval = 8; proxy = none };
  noise = none;
  udp = none;
}

abbrev id : Digest
id = registered_id digest asked

-- "80"
abbrev ports : Text
ports = 56 ∷ 48 ∷ []

abbrev server : Server ℕ
server = record {
  config = record {
    bind_addr = 4 ∷ [];
    users = (7 ∷ [], record { token = some token; allowed_ports = ports }) ∷ [];
    services = (ssh, service) ∷ [];
    transport = transport;
    heartbeat_interval = 30;
  };
  services = (id, service) ∷ [];
  control_channels = record { heap = []; next = 0; map1 = []; map2 = [] };
}

server-IsServer : IsServer server
server-IsServer = record {
  map1_full = refl;
  map2_full = refl;
  falling = tt;
  distinct1 = tt;
  distinct2 = tt;
}

abbrev handle_of : ServerServiceConfig → ℕ → ℕ
handle_of cfg interval = interval

abbrev nonce : Digest
nonce = 9 ∷ []

abbrev key : Digest
key = token_key digest asked.token nonce

no_channel : (k : Digest) → get2 text_discrete text_discrete k server.control_channels ≡ some none
unfolding get2 find MultiMap.read
no_channel k = refl

control_handshake_outcome_example :
    (client_side digest handle_of asked nonce server).outcome
    ≡ learned digest handle_of
        (some token)
        nonce
        (HashMap.get text_discrete (registered_id digest asked) server.services)
control_handshake_outcome_example =
    control_handshake_outcome digest handle_of asked nonce server server-IsServer (no_channel key)

abbrev parse : Text → Option SocketAddr
parse t = some (SocketAddr.v4 (0 ∷ 0 ∷ 0 ∷ 0 ∷ []) 80)

abbrev bind_addr : Text
bind_addr = 6 ∷ []

abbrev session : Digest
session = 8 ∷ []

abbrev web : Text
web = 119 ∷ []

abbrev client : List (Text × ClientServiceConfig) → ClientConfig
client services = record {
  remote_addr = 2 ∷ [];
  user = none;
  token = none;
  prefer_ipv6 = none;
  services = services;
  transport = transport;
  heartbeat_timeout = 40;
  retry_interval = 1;
}

abbrev old : ClientConfig
old = client ((ssh, asked) ∷ [])

abbrev new : ClientConfig
new = client ((web, record asked { name = web }) ∷ [])

abbrev events : List ConfigChange
events =
    ConfigChange.client_change (ServiceChange.delete ssh)
    ∷ ConfigChange.client_change (ServiceChange.add (record asked { name = web }))
    ∷ []

abbrev handle_new : ClientServiceConfig → Text → ℕ → ClientServiceConfig
handle_new s addr timeout = s

changes_found : calculate_instance_config_events client_instance old new ≡ some events
unfolding calculate_instance_config_events client_instance service_changes same_client same_map
    has_entries deletions additions HashMap.get HashMap.contains_key
changes_found = ground arith

abbrev requests : List ControlEvent
requests =
    ControlEvent.requested (some true) true
    ∷ ControlEvent.heart_beat_due true
    ∷ ControlEvent.requested (some true) true
    ∷ []

abbrev met : RunInput
met = meets digest id handle_of asked nonce server 30 requests
