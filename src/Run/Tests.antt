-- ===== src/Run/Tests.antt =====
-- A file with a client and no services.
use rathole_ng.Prelude.{◌≡◌, true, none, some, [], ◌∷◌, arith, Option}
use rathole_ng.Config.{Text, TransportType, ClientConfig, Config, Result}
use rathole_ng.Config.Validation.{
  from_str, validate_part, validate_client_config, validate_services, validate_transport_config,
  validate_transport_type, is_proxy_known,
}

abbrev client : ClientConfig
client = record {
  remote_addr = 4 ∷ [];
  user = none;
  token = none;
  prefer_ipv6 = none;
  services = [];
  transport = record {
    transport_type = TransportType.tcp;
    tcp = record { nodelay = true; keepalive_secs = 20; keepalive_interval = 8; proxy = none };
    noise = none;
    udp = none;
  };
  heartbeat_timeout = 40;
  retry_interval = 1;
}

abbrev file : Config
file = record { server = none; client = some client }

abbrev scheme : Text → Text
scheme u = u

abbrev parse : Text → Option Config
parse s = some file

file_passes : from_str scheme parse [] ≡ Result.ok file
unfolding from_str validate_part validate_client_config validate_services validate_transport_config
    validate_transport_type is_proxy_known
file_passes = ground arith
