-- ===== src/Server/VisitorTests.antt =====
-- A visitor with a user's token, and a pool with one broken channel.
use rathole_ng.Prelude.{
  ℕ, ◌+◌, ◌≡◌, refl, Bool, true, false, Option, none, some, List, [], ◌∷◌, arith, length,
}
use rathole_ng.Net.{SocketAddr}
use rathole_ng.Config.{
  Text, text_discrete, ServiceType, TransportType, ServerServiceConfig, UserConfig,
}
use rathole_ng.Config.Ports.{is_port_allowed}
use rathole_ng.Config.Decimal.{show_digits}
use rathole_ng.Config.Allowed.{
  PortRange, show_ranges, show_range, some_holds, holds, is_port_allowed-show_ranges,
}
use rathole_ng.Protocol.{Digest, VisitorAuth, VisitorAck, PacketMessage}
use rathole_ng.MultiMap.{MultiMap, get2, find}
use rathole_ng.MultiMap
use rathole_ng.Server.{Server}
use rathole_ng.Server.Reload.{IsServer}
use rathole_ng.Server.Handshake.{HandshakeResult}
use rathole_ng.Server.Visitor.{find_user, answers, admit, do_visitor_channel_handshake}
use rathole_ng.Server.Admission.{establish_visitor_lem}
use rathole_ng.Server.Channel.{
  first_requests, ListenEvent, tcp_listen_and_send, DataChannel, run_tcp_connection_pool,
}
use rathole_ng.Server.Pool.{
  AreAsked, working, paired, run_tcp_connection_pool_pairs, pool_serves_all,
}

abbrev digest : Text → Digest
digest t = t

abbrev handle_of : ServerServiceConfig → ℕ → ℕ
handle_of cfg interval = interval

-- "80"
abbrev ports : Text
ports = 56 ∷ 48 ∷ []

abbrev user : Text × UserConfig
user = (7 ∷ [], record { token = some (1 ∷ []); allowed_ports = ports })

abbrev server : Server ℕ
server = record {
  config = record {
    bind_addr = 4 ∷ [];
    users = user ∷ [];
    services = [];
    transport = record {
      transport_type = TransportType.tcp;
      tcp = record { nodelay = true; keepalive_secs = 20; keepalive_interval = 8; proxy = none };
      noise = none;
      udp = none;
    };
    heartbeat_interval = 30;
  };
  services = [];
  control_channels = record { heap = []; next = 0; map1 = []; map2 = [] };
}

server-IsServer : IsServer server
server-IsServer = record {
  map1_full = refl;
  map2_full = refl;
  falling = tt;
  distinct1 = tt;
  distinct2 = tt;
}

abbrev addr : SocketAddr
addr = SocketAddr.v4 (0 ∷ 0 ∷ 0 ∷ 0 ∷ []) 80

abbrev parse : Text → Option SocketAddr
parse t = some addr

abbrev nonce : Digest
nonce = 9 ∷ []

abbrev session : Digest
session = 8 ∷ []

abbrev auth : VisitorAuth
auth = record {
  token_digest = digest (1 ∷ 9 ∷ []);
  bind_addr = 6 ∷ [];
  service_type = ServiceType.tcp;
}

no_channel : get2 text_discrete text_discrete session server.control_channels ≡ some none
unfolding get2 find MultiMap.read
no_channel = refl

port_allowed : is_port_allowed ports 80 ≡ true
unfolding show_ranges show_range show_digits some_holds holds
port_allowed = is_port_allowed-show_ranges 80 (PortRange.single 80) [] (omega arith, tt)

abbrev shaken : HandshakeResult ℕ
shaken =
    do_visitor_channel_handshake digest handle_of parse nonce session true (some auth) true true
      server

abbrev sent : List PacketMessage
sent =
    PacketMessage.visitor_ack VisitorAck.ok ∷ PacketMessage.auth (record { digest = session }) ∷ []

visitor_accepted : shaken.accepted ≡ true
unfolding do_visitor_channel_handshake admit find_user answers
visitor_accepted = ground (
  arith,
  port_allowed,
  (establish_visitor_lem digest handle_of parse server server-IsServer user auth session sent
      no_channel).0,
)

abbrev channel : ℕ → Bool → DataChannel
channel id works = record { id = id; works = works; asked = true }

-- Eleven channels, of which the second is broken.
abbrev channels : List DataChannel
channels =
    channel 0 true
    ∷ channel 1 false
    ∷ channel 2 true
    ∷ channel 3 true
    ∷ channel 4 true
    ∷ channel 5 true
    ∷ channel 6 true
    ∷ channel 7 true
    ∷ channel 8 true
    ∷ channel 9 true
    ∷ channel 10 true
    ∷ []

channels-AreAsked : AreAsked channels
channels-AreAsked =
    (refl, (refl, (refl, (refl, (refl, (refl, (refl, (refl, (refl, (refl, (refl, tt)))))))))))

abbrev listen_events : List ListenEvent
listen_events =
    ListenEvent.accepted addr true
    ∷ ListenEvent.accept_failed (some 1)
    ∷ ListenEvent.accepted addr true
    ∷ ListenEvent.shutdown
    ∷ []

run_tcp_connection_pool_pairs_example :
    (run_tcp_connection_pool (addr ∷ addr ∷ []) channels).forwarded
    ≡ paired (addr ∷ addr ∷ []) (working channels)
run_tcp_connection_pool_pairs_example =
    run_tcp_connection_pool_pairs (addr ∷ addr ∷ []) channels channels-AreAsked

all_answered :
    length channels
    ≡ length (first_requests ServiceType.tcp)
      + length (tcp_listen_and_send listen_events).0
      + (run_tcp_connection_pool (tcp_listen_and_send listen_events).1 channels).requests
unfolding first_requests tcp_listen_and_send run_tcp_connection_pool
all_answered = refl

pool_serves_all_example :
    (length (run_tcp_connection_pool (tcp_listen_and_send listen_events).1 channels).forwarded
      ≡ length (tcp_listen_and_send listen_events).1)
    × (length (run_tcp_connection_pool (tcp_listen_and_send listen_events).1 channels).spare ≡ 8)
pool_serves_all_example = pool_serves_all listen_events channels channels-AreAsked all_answered
