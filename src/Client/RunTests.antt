-- ===== src/Client/RunTests.antt =====
-- A run that is shut down, and a client's file with one service.
use rathole_ng.Prelude.{true, false, none, some, List, [], ◌∷◌}
use rathole_ng.Collections.HashMap
use rathole_ng.Config.{Text, ServiceType, TransportType, ClientServiceConfig, ClientConfig}
use rathole_ng.Config.Validation.{default_user}
use rathole_ng.Protocol.{Digest, Hello, Ack, ControlChannelCmd}
use rathole_ng.Client.Control.{LoopEvent}
use rathole_ng.Client.Channel.{Channel, RunInput, run_channel}
use rathole_ng.Client.Runs.{IsAcked, IsRun, timeout_of, run_channel-IsAcked}

abbrev digest : Text → Digest
digest t = t

abbrev pad : Digest
pad = 0 ∷ []

abbrev ssh : Text
ssh = 115 ∷ 115 ∷ 104 ∷ []

abbrev service : ClientServiceConfig
service = record {
  service_type = ServiceType.tcp;
  name = [];
  local_addr = 5 ∷ [];
  prefer_ipv6 = false;
  user = none;
  token = some (1 ∷ []);
  nodelay = none;
  retry_interval = none;
  remote_bind_addr = none;
  proxy_protocol = none;
}

abbrev client : List (Text × ClientServiceConfig) → ClientConfig
client services = record {
  remote_addr = 2 ∷ [];
  user = none;
  token = none;
  prefer_ipv6 = none;
  services = services;
  transport = record {
    transport_type = TransportType.tcp;
    tcp = record { nodelay = true; keepalive_secs = 20; keepalive_interval = 8; proxy = none };
    noise = none;
    udp = none;
  };
  heartbeat_timeout = 40;
  retry_interval = 1;
}

abbrev filled : ClientServiceConfig
filled = record service { name = ssh; user = some default_user; retry_interval = some 1 }

abbrev scheme : Text → Text
scheme u = u

abbrev file : ClientConfig
file = client ((ssh, service) ∷ [])

abbrev passed : ClientConfig
passed = client ((ssh, filled) ∷ [])

abbrev channel : Channel
channel = Channel.control (8 ∷ []) filled (2 ∷ []) 40

abbrev input : RunInput
input = record {
  resolved = true;
  connected = true;
  greeted = true;
  authed = true;
  hello = some (Hello.control_channel_hello 1 (9 ∷ []));
  ack = some Ack.ok;
  challenge = none;
  visitor_ack = none;
  session = none;
  events =
      LoopEvent.received (some ControlChannelCmd.create_data_channel) ∷ LoopEvent.shutdown ∷ [];
}

run_channel-IsAcked_example :
    IsRun digest pad
      (IsAcked digest channel input)
      (timeout_of digest pad channel)
      input.events
      (run_channel digest pad channel input)
run_channel-IsAcked_example = run_channel-IsAcked digest pad channel input
