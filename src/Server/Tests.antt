-- ===== src/Server/Tests.antt =====
-- A server with one service and one channel.
use rathole_ng.Prelude.{◌++◌, ℕ, ◌≡◌, refl, true, false, none, Option, some, [], ◌∷◌, ite, arith}
use rathole_ng.Collections.HashMap
use rathole_ng.Config.{
  Text, text_discrete, ServiceType, ServerServiceConfig, ServerConfig, TransportType,
}
use rathole_ng.Protocol.{Digest}
use rathole_ng.MultiMap.Pointers.{find_ptr}
use rathole_ng.Watcher.{ServiceChange, ConfigChange}
use rathole_ng.Server.{Server, service_digest, handle_hot_reload}
use rathole_ng.Server.Reload.{IsServer, IsGone, handle_hot_reload_add}
use rathole_ng.Protocol.{Auth}
use rathole_ng.MultiMap.{MultiMap, key1}
use rathole_ng.MultiMap.Contents.{IsValid, discard, entries}
use rathole_ng.MultiMap.Refinement.{put}
use rathole_ng.Server.Handshake.{
  HandshakeResult, session_key, token_text, do_control_channel_handshake,
}
use rathole_ng.Server.Authentication.{establish_lem, do_control_channel_handshake_accepts}

-- A digest that hides nothing.
abbrev digest : Text → Digest
digest t = t

abbrev ssh : Text
ssh = 115 ∷ 115 ∷ 104 ∷ []

abbrev service : ServerServiceConfig
service = record {
  service_type = ServiceType.tcp;
  name = ssh;
  bind_addr = 3 ∷ [];
  user = none;
  token = some (1 ∷ []);
  nodelay = none;
}

abbrev hash : Digest
hash = 1 ∷ []

abbrev config : ServerConfig
config = record {
  bind_addr = 4 ∷ [];
  users = [];
  services = (ssh, service) ∷ [];
  transport = record {
    transport_type = TransportType.tcp;
    tcp = record { nodelay = true; keepalive_secs = 20; keepalive_interval = 8; proxy = none };
    noise = none;
    udp = none;
  };
  heartbeat_interval = 30;
}

abbrev server : Server ℕ
server = record {
  config = config;
  services = (hash, service) ∷ [];
  control_channels = record {
    heap = (0, (hash, ssh, 6)) ∷ [];
    next = 1;
    map1 = (0, 0) ∷ [];
    map2 = (0, 0) ∷ [];
  };
}

server-IsServer : IsServer server
unfolding find_ptr
server-IsServer = record {
  map1_full = refl;
  map2_full = refl;
  falling = (omega arith, tt);
  distinct1 = (refl, tt);
  distinct2 = (refl, tt);
}

handle_hot_reload_add_example :
    (s' : Server ℕ) × (handle_hot_reload digest
        (ConfigChange.server_change (ServiceChange.add service))
        server
      ≡ some s')
    × (HashMap.get text_discrete hash s'.services
        ≡ ite
            (text_discrete (service_digest digest service ssh) hash)
            (some service)
            (HashMap.get text_discrete hash server.services))
    × IsServer s'
    × IsGone (service_digest digest service ssh) s'
handle_hot_reload_add_example = handle_hot_reload_add digest service server hash server-IsServer

abbrev handle_of : ServerServiceConfig → ℕ → ℕ
handle_of cfg interval = interval

abbrev nonce : Digest
nonce = 9 ∷ []

abbrev key : Digest
key = session_key digest handle_of service nonce

abbrev good : Option Auth
good = some (record { digest = key })

abbrev shake : Option Auth → HandshakeResult ℕ
shake auth = do_control_channel_handshake digest handle_of nonce hash auth true true server

good_accepted : (shake good).accepted ≡ true
unfolding do_control_channel_handshake HashMap.get
good_accepted =
    ground (arith, (establish_lem digest handle_of server server-IsServer service hash key).1)

do_control_channel_handshake_accepts_example :
    (cfg : ServerServiceConfig) × (w : MultiMap Digest Digest ℕ) × (HashMap.get text_discrete hash
        server.services
      ≡ some cfg)
    × (good ≡ some (record { digest = digest (token_text cfg.token ++ nonce) }))
    × ((shake good).channels ≡ some w)
    × IsValid text_discrete text_discrete w
    × (entries w
        ≡ (put text_discrete text_discrete hash
            (digest (token_text cfg.token ++ nonce))
            (handle_of cfg 30)
            (discard text_discrete key1 hash (entries server.control_channels))).0)
do_control_channel_handshake_accepts_example =
    do_control_channel_handshake_accepts digest handle_of server server-IsServer nonce hash good
      good_accepted

no_auth_refused : (shake none).accepted ≡ false
unfolding do_control_channel_handshake HashMap.get
no_auth_refused = ground arith
