-- ===== src/Server/Running/Tests.antt =====
-- A server with one service: a client's handshake, in the middle of which the service leaves the
-- file, a data channel, and a visitor.
use rathole_ng.Prelude.{ℕ, ◌≡◌, refl, true, Option, none, some, List, [], ◌∷◌, arith, Every, Among}
use rathole_ng.Net.{SocketAddr}
use rathole_ng.Config.{
  Text, text_discrete, ServiceType, TransportType, ServerServiceConfig, ServerConfig,
}
use rathole_ng.Protocol.{Digest, VisitorAuth}
use rathole_ng.MultiMap.Contents.{entries}
use rathole_ng.Watcher.{ServiceChange, ConfigChange}
use rathole_ng.Prelude.{ℕ_discrete}
use rathole_ng.Collections.HashMap
use rathole_ng.MultiMap.{get2, find}
use rathole_ng.MultiMap
use rathole_ng.Server.Handshake.{session_key}
use rathole_ng.Server.Running.Stale.{stale_handshake_accepts}
use rathole_ng.Server.{service_digest}
use rathole_ng.Server.Reload.{IsServer}
use rathole_ng.Server.Running.Earned.{IsEarned, IsGiven}
use rathole_ng.Server.Running.Safety.{run_server_loop_safe}
use rathole_ng.Server.Running.{
  Pending, serve_event, Running, ServerEvent, serve, started, run_server_loop,
}

abbrev digest : Text → Digest
digest t = t

abbrev handle_of : ServerServiceConfig → ℕ → Text
handle_of cfg interval = cfg.name

abbrev parse : Text → Option SocketAddr
parse t = none

abbrev ssh : Text
ssh = 115 ∷ 115 ∷ 104 ∷ []

abbrev service : ServerServiceConfig
service = record {
  service_type = ServiceType.tcp;
  name = ssh;
  bind_addr = 3 ∷ [];
  user = none;
  token = some (1 ∷ []);
  nodelay = none;
}

abbrev config : ServerConfig
config = record {
  bind_addr = 4 ∷ [];
  users = [];
  services = (ssh, service) ∷ [];
  transport = record {
    transport_type = TransportType.tcp;
    tcp = record { nodelay = true; keepalive_secs = 20; keepalive_interval = 8; proxy = none };
    noise = none;
    udp = none;
  };
  heartbeat_interval = 30;
}

abbrev answer : VisitorAuth
answer = record { token_digest = 2 ∷ []; bind_addr = 6 ∷ []; service_type = ServiceType.tcp }

abbrev events : List ServerEvent
events =
    ServerEvent.control_hello 0 (9 ∷ []) (service_digest digest service ssh)
    ∷ ServerEvent.update (ConfigChange.server_change (ServiceChange.delete ssh))
    ∷ ServerEvent.control_auth 0 (1 ∷ 9 ∷ []) true
    ∷ ServerEvent.data_hello (1 ∷ 9 ∷ [])
    ∷ ServerEvent.visitor (7 ∷ []) (8 ∷ []) answer true true
    ∷ []

abbrev Happened : ServerEvent → Type 0
Happened e = Among e events

run_server_loop_safe_example :
    ((r : Running Text) × (serve digest handle_of parse events
          (started digest handle_of parse config)
        ≡ some r)
      × IsServer r.server
      × Every (IsEarned digest handle_of parse config Happened) (entries r.server.control_channels)
      × Every (IsGiven digest handle_of parse config Happened) r.data_channels)
    × ((t : Running Text) × (run_server_loop digest handle_of parse config events ≡ some t)
        × (t.server.control_channels.heap ≡ []))
run_server_loop_safe_example = run_server_loop_safe digest handle_of parse config events (refl, tt)

-- The client of connection 0 has its nonce, and the service is gone.
abbrev waiting : Pending
waiting = record {
  service_digest = service_digest digest service ssh;
  service_config = service;
  nonce = 9 ∷ [];
}

abbrev overtaken : Running Text
overtaken = record {
  server = record {
    config = config;
    services = [];
    control_channels = record { heap = []; next = 0; map1 = []; map2 = [] };
  };
  handshakes = (0, waiting) ∷ [];
  data_channels = [];
}

overtaken-IsServer : IsServer overtaken.server
overtaken-IsServer = record {
  map1_full = refl;
  map2_full = refl;
  falling = tt;
  distinct1 = tt;
  distinct2 = tt;
}

handshake_found : HashMap.get ℕ_discrete 0 overtaken.handshakes ≡ some waiting
unfolding HashMap.get
handshake_found = ground arith

service_gone : HashMap.get text_discrete waiting.service_digest overtaken.server.services ≡ none
unfolding HashMap.get
service_gone = refl

no_channel :
    get2 text_discrete text_discrete (1 ∷ 9 ∷ []) overtaken.server.control_channels ≡ some none
unfolding get2 find MultiMap.read
no_channel = refl

no_channel_for_key :
    get2 text_discrete text_discrete
      (session_key digest handle_of service (9 ∷ []))
      overtaken.server.control_channels
    ≡ some none
unfolding session_key
no_channel_for_key = no_channel

stale_handshake_accepts_example :
    (t : Running Text) × (serve_event digest handle_of parse
        (ServerEvent.control_auth 0 (session_key digest handle_of service (9 ∷ [])) true)
        overtaken
      ≡ some t)
    × (HashMap.get text_discrete waiting.service_digest t.server.services ≡ none)
    × (get2 text_discrete text_discrete
          (session_key digest handle_of service (9 ∷ []))
          t.server.control_channels
        ≡ some (some ssh))
stale_handshake_accepts_example =
    stale_handshake_accepts digest handle_of parse 0 waiting overtaken overtaken-IsServer
      handshake_found service_gone no_channel_for_key
