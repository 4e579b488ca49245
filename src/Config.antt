-- ===== src/Config.antt =====
-- src/config.rs: the configuration. A text is a list of code points.
pub mod Validation
pub mod Resolved
pub mod Acceptance
pub mod Ports
pub mod Decimal
pub mod Allowed
mod Tests
mod PortTests
use rathole_ng.Prelude.{ℕ, Bool, true, false, Option, none, some, List, ℕ_discrete}
use mathlib.Core.List.{List-discrete}

abbrev pub Text : Type 0
Text = List ℕ

unfoldable pub text_discrete : Discrete Text
text_discrete = List-discrete ℕ_discrete

pub data TransportType : Type 0 where
  tcp udp : TransportType

pub data ServiceType : Type 0 where
  tcp udp : ServiceType

pub data ProxyProtocol : Type 0 where
  v1 v2 : ProxyProtocol

pub record ClientServiceConfig : Type 0 where
  pub service_type : ServiceType
  pub name : Text
  pub local_addr : Text
  pub prefer_ipv6 : Bool
  pub user : Option Text
  pub token : Option Text
  pub nodelay : Option Bool
  pub retry_interval : Option ℕ
  pub remote_bind_addr : Option Text
  pub proxy_protocol : Option ProxyProtocol

unfoldable pub is_visitor_mode : ClientServiceConfig → Bool
is_visitor_mode s = elim s.remote_bind_addr [ none ↦ false | some _ ↦ true ]

pub record ServerServiceConfig : Type 0 where
  pub service_type : ServiceType
  pub name : Text
  pub bind_addr : Text
  pub user : Option Text
  pub token : Option Text
  pub nodelay : Option Bool

pub record NoiseConfig : Type 0 where
  pub pattern : Text
  pub local_private_key : Option Text
  pub remote_public_key : Option Text
  pub psk : Option Text

pub record UserConfig : Type 0 where
  pub token : Option Text
  pub allowed_ports : Text

pub record UdpTransportConfig : Type 0 where
  pub psk : Text

-- A URL is kept as its text.
pub record TcpConfig : Type 0 where
  pub nodelay : Bool
  pub keepalive_secs : ℕ
  pub keepalive_interval : ℕ
  pub proxy : Option Text

pub record TransportConfig : Type 0 where
  pub transport_type : TransportType
  pub tcp : TcpConfig
  pub noise : Option NoiseConfig
  pub udp : Option UdpTransportConfig

pub record ClientConfig : Type 0 where
  pub remote_addr : Text
  pub user : Option Text
  pub token : Option Text
  pub prefer_ipv6 : Option Bool
  pub services : List (Text × ClientServiceConfig)
  pub transport : TransportConfig
  pub heartbeat_timeout : ℕ
  pub retry_interval : ℕ

pub record ServerConfig : Type 0 where
  pub bind_addr : Text
  pub users : List (Text × UserConfig)
  pub services : List (Text × ServerServiceConfig)
  pub transport : TransportConfig
  pub heartbeat_interval : ℕ

pub record Config : Type 0 where
  pub server : Option ServerConfig
  pub client : Option ClientConfig

-- The errors that the validation gives, one for each `bail!` and `anyhow!`.
pub data ConfigError : Type 0 where
  user_not_defined no_owner token_not_set unknown_proxy_scheme : ConfigError
  missing_udp empty_psk not_parsed neither : ConfigError

pub data Result (A : Type 0) : Type 0 where
  ok : A → Result A
  err : ConfigError → Result A
