-- ===== src/Run/Loop/Tests.antt =====
-- A client whose file loses a service, is broken, and then gets another address.
use rathole_ng.Prelude.{ℕ, ◌≡◌, refl, Bool, true, false, Option, none, some, List, [], ◌∷◌, arith}
use rathole_ng.Collections.HashMap
use rathole_ng.Config.{
  Text, text_discrete, ServiceType, TransportType, ClientServiceConfig, ClientConfig, Config,
}
use rathole_ng.Protocol.{Digest}
use rathole_ng.Watcher.{
  ConfigChange, rescan, calculate_events, same_config, same_client, part_events, client_instance,
  server_instance, calculate_instance_config_events, same_map, has_entries,
}
use rathole_ng.Client.{Client, start}
use rathole_ng.Run.{determine_run_mode}
use rathole_ng.Run.Choice.{no_flags}
use rathole_ng.Run.Loop.{Instance, Program, follow, launch}
use rathole_ng.Run.Loop.Following.{IsClientFile, latest, follow_as_restart}
use rathole_ng.Run.Loop.Failing.{follow_ends_program}

abbrev ssh : Text
ssh = 115 ∷ 115 ∷ 104 ∷ []

abbrev service : ClientServiceConfig
service = record {
  service_type = ServiceType.tcp;
  name = ssh;
  local_addr = 5 ∷ [];
  prefer_ipv6 = false;
  user = none;
  token = some (1 ∷ []);
  nodelay = none;
  retry_interval = some 1;
  remote_bind_addr = none;
  proxy_protocol = none;
}

abbrev file : Text → List (Text × ClientServiceConfig) → Config
file addr services = record {
  server = none;
  client = some (record {
    remote_addr = addr;
    user = none;
    token = none;
    prefer_ipv6 = none;
    services = services;
    transport = record {
      transport_type = TransportType.tcp;
      tcp = record { nodelay = true; keepalive_secs = 20; keepalive_interval = 8; proxy = none };
      noise = none;
      udp = none;
    };
    heartbeat_timeout = 40;
    retry_interval = 1;
  });
}

abbrev one : Config
one = file (2 ∷ []) ((ssh, service) ∷ [])

abbrev two : Config
two = file (2 ∷ []) []

abbrev three : Config
three = file (3 ∷ []) ((ssh, service) ∷ [])

abbrev handle_new : ClientServiceConfig → Text → ℕ → Text
handle_new s addr timeout = addr

abbrev digest : Text → Digest
digest t = t

abbrev always : Config → Bool
always c = true

abbrev never : Config → Bool
never c = false

one-IsClientFile : IsClientFile always no_flags one
unfolding determine_run_mode HashMap.get
one-IsClientFile = record {
  client = _;
  has_client = refl;
  client_mode = refl;
  up = refl;
  services_IsMap = (refl, tt);
  named = (refl, tt);
}

two-IsClientFile : IsClientFile always no_flags two
unfolding determine_run_mode
two-IsClientFile = record {
  client = _;
  has_client = refl;
  client_mode = refl;
  up = refl;
  services_IsMap = tt;
  named = tt;
}

three-IsClientFile : IsClientFile always no_flags three
unfolding determine_run_mode HashMap.get
three-IsClientFile = record {
  client = _;
  has_client = refl;
  client_mode = refl;
  up = refl;
  services_IsMap = (refl, tt);
  named = (refl, tt);
}

abbrev files : List (Option Config)
files = some two ∷ none ∷ some three ∷ []

abbrev after : Config × Program Text ℕ
after =
    follow handle_new digest always no_flags files (launch handle_new digest always no_flags one)

follow_as_restart_example :
    (b : ClientConfig) × (c : Client Text) × ((latest one files).client ≡ some b)
    × (after.0 ≡ latest one files)
    × (after.1 ≡ Program.looping (some (Instance.client c)))
    × ((k : Text)
        → HashMap.get text_discrete k c.service_handles
          ≡ HashMap.get text_discrete k (start handle_new b).service_handles)
follow_as_restart_example =
    follow_as_restart handle_new digest always no_flags one files one-IsClientFile
      (two-IsClientFile, (tt, (three-IsClientFile, tt)))

address_restarts : (rescan two (some three)).1 ≡ ConfigChange.general three ∷ []
unfolding rescan calculate_events same_config same_client same_map has_entries part_events
    client_instance server_instance calculate_instance_config_events
address_restarts = ground arith

follow_ends_program_example :
    (follow {H = Text} {G = ℕ} handle_new digest never no_flags
      (some three ∷ none ∷ [])
      (launch handle_new digest never no_flags two)).1
    ≡ Program.failed
follow_ends_program_example =
    follow_ends_program handle_new digest never no_flags two three (none ∷ []) refl address_restarts
