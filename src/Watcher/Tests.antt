-- ===== src/Watcher/Tests.antt =====
-- A configuration file that gains a service.
use rathole_ng.Prelude.{◌≡◌, ◌⊎◌, refl, none, some, List, [], ◌∷◌}
use rathole_ng.Collections.HashMap
use rathole_ng.Config.{
  Text, text_discrete, TransportType, ServiceType, ServerServiceConfig, ServerConfig, Config,
}
use rathole_ng.Watcher.{ConfigChange, server_service_discrete, rescan}
use rathole_ng.Watcher.Replay.{replay, AreNamed}
use rathole_ng.Watcher.Tracking.{server_changes, rescan_events_lead_on}
use mathlib.Core.Bool.{true}

abbrev ssh : Text
ssh = 115 ∷ 115 ∷ 104 ∷ []

abbrev service : ServerServiceConfig
service = record {
  service_type = ServiceType.tcp;
  name = ssh;
  bind_addr = 3 ∷ [];
  user = none;
  token = some (1 ∷ []);
  nodelay = none;
}

abbrev services : List (Text × ServerServiceConfig)
services = (ssh, service) ∷ []

abbrev name_of : ServerServiceConfig → Text
name_of s = s.name

services-IsMap : HashMap.IsMap text_discrete services
unfolding HashMap.get
services-IsMap = (refl, tt)

services-AreNamed : AreNamed server_service_discrete name_of services
services-AreNamed = (refl, tt)

abbrev server_with : List (Text × ServerServiceConfig) → ServerConfig
server_with services = record {
  bind_addr = 4 ∷ [];
  users = [];
  services = services;
  transport = record {
    transport_type = TransportType.tcp;
    tcp = record { nodelay = true; keepalive_secs = 20; keepalive_interval = 8; proxy = none };
    noise = none;
    udp = none;
  };
  heartbeat_interval = 30;
}

abbrev file_with : List (Text × ServerServiceConfig) → Config
file_with services = record { server = some (server_with services); client = none }

rescan_events_lead_on_example :
    let events = (rescan (file_with []) (some (file_with services))).1 in
    (events ≡ ConfigChange.general (file_with services) ∷ [])
    ⊎ (HashMap.get text_discrete ssh
          (replay server_service_discrete name_of (server_changes events) [])
        ≡ HashMap.get text_discrete ssh services)
rescan_events_lead_on_example =
    rescan_events_lead_on (file_with []) (file_with services) (server_with [])
      (server_with services) ssh refl refl tt services-IsMap services-AreNamed
