-- ===== src/Config/Tests.antt =====
-- Configurations with one service at concrete inputs.
use rathole_ng.Prelude.{◌≡◌, true, false, ◌&&◌, none, some, [], ◌∷◌, arith}
use rathole_ng.Collections.HashMap
use rathole_ng.Config.{
  Text, TransportType, ServiceType, ClientServiceConfig, ServerServiceConfig, TransportConfig,
  ClientConfig, ServerConfig, Result,
}
use rathole_ng.Config.Validation.{
  default_user, validate_server_service, service_owner, validate_client_service, validate_services,
  is_proxy_known, validate_transport_type, validate_transport_config, validate_server_config,
  validate_client_config,
}
use rathole_ng.Config.Acceptance.{
  is_ok, all_services, is_served, is_transport, is_ok-validate_server_config,
}

abbrev scheme : Text → Text
scheme u = u

abbrev transport : TransportConfig
transport = record {
  transport_type = TransportType.tcp;
  tcp = record { nodelay = true; keepalive_secs = 20; keepalive_interval = 8; proxy = none };
  noise = none;
  udp = none;
}

-- "ssh"
abbrev ssh : Text
ssh = 115 ∷ 115 ∷ 104 ∷ []

abbrev secret : Text
secret = 1 ∷ 2 ∷ []

abbrev server_service : ServerServiceConfig
server_service = record {
  service_type = ServiceType.tcp;
  name = [];
  bind_addr = 3 ∷ [];
  user = none;
  token = none;
  nodelay = none;
}

abbrev server : ServerConfig
server = record {
  bind_addr = 4 ∷ [];
  users = (default_user, record { token = some secret; allowed_ports = [] }) ∷ [];
  services = (ssh, server_service) ∷ [];
  transport = transport;
  heartbeat_interval = 30;
}

abbrev valid_service : ServerServiceConfig
valid_service = record server_service { name = ssh; user = some default_user; token = some secret }

abbrev valid_server : ServerConfig
valid_server = record server { services = (ssh, valid_service) ∷ [] }

server_passes : validate_server_config scheme server ≡ Result.ok valid_server
unfolding validate_server_config validate_services validate_server_service service_owner
    validate_transport_config validate_transport_type is_proxy_known HashMap.get
    HashMap.contains_key
server_passes = ground arith

is_ok-validate_server_config_example : is_ok (validate_server_config scheme server) ≡ (
    all_services (is_served server.users) server.services && is_transport scheme server.transport)
is_ok-validate_server_config_example = is_ok-validate_server_config scheme server

abbrev client_service : ClientServiceConfig
client_service = record {
  service_type = ServiceType.tcp;
  name = [];
  local_addr = 3 ∷ [];
  prefer_ipv6 = false;
  user = none;
  token = none;
  nodelay = none;
  retry_interval = none;
  remote_bind_addr = none;
  proxy_protocol = none;
}

abbrev client : ClientConfig
client = record {
  remote_addr = 4 ∷ [];
  user = none;
  token = some secret;
  prefer_ipv6 = none;
  services = (ssh, client_service) ∷ [];
  transport = transport;
  heartbeat_timeout = 40;
  retry_interval = 1;
}

abbrev valid_client : ClientConfig
valid_client = record client {
  services =
      (
        ssh,
        record client_service {
          name = ssh;
          user = some default_user;
          token = some secret;
          retry_interval = some 1;
        },
      )
      ∷ [];
}

client_passes : validate_client_config scheme client ≡ Result.ok valid_client
unfolding validate_client_config validate_services validate_client_service validate_transport_config
    validate_transport_type is_proxy_known
client_passes = ground arith
