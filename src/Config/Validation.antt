-- ===== src/Config/Validation.antt =====
-- src/config.rs: the validation of the configuration, which fills in what a service leaves out.
-- The parser of the file and that of URLs are arguments. A loop over the services goes in the order
-- of the map's list and stops at the first error.
use rathole_ng.Prelude.{Bool, true, false, Option, none, some, List, [], ◌∷◌, if◌then◌else◌, ite}
use rathole_ng.Collections.HashMap
use rathole_ng.Config.{
  Text, text_discrete, TransportType, ClientServiceConfig, ServerServiceConfig, UserConfig,
  TransportConfig, ClientConfig, ServerConfig, Config, ConfigError, Result,
}

-- "default"
abbrev pub default_user : Text
default_user = 100 ∷ 101 ∷ 102 ∷ 97 ∷ 117 ∷ 108 ∷ 116 ∷ []

abbrev pub is_set {ℓ} : {A : Type ℓ} → Option A → Bool
is_set none = false
is_set (some _) = true

-- `if x.is_none() { x = y }`
abbrev pub or_else {ℓ} : {A : Type ℓ} → Option A → Option A → Option A
or_else none y = y
or_else (some a) y = some a

-- The user of a service of the server: its own, or `default`.
unfoldable pub service_owner : List (Text × UserConfig) → ServerServiceConfig → Result Text
service_owner users s = elim s.user [
  | some u ↦
      if HashMap.contains_key text_discrete u users
      then Result.ok u
      else Result.err ConfigError.user_not_defined
  | none ↦
      if HashMap.contains_key text_discrete default_user users
      then Result.ok default_user
      else Result.err ConfigError.no_owner
]

abbrev pub token_of : Option UserConfig → Option Text
token_of none = none
token_of (some u) = u.token

-- One round of the loop in `validate_server_config`.
unfoldable pub validate_server_service :
    List (Text × UserConfig) → Text → ServerServiceConfig → Result ServerServiceConfig
validate_server_service users name s = elim (service_owner users s) [
  | Result.err e ↦ Result.err e
  | Result.ok u ↦
      let token = or_else s.token (token_of (HashMap.get text_discrete u users)) in
      if is_set token
      then Result.ok (record s { name = name; user = some u; token = token })
      else Result.err ConfigError.token_not_set
]

-- One round of the loop in `validate_client_config`.
unfoldable pub validate_client_service :
    ClientConfig → Text → ClientServiceConfig → Result ClientServiceConfig
validate_client_service client name s =
    let user = or_else s.user client.user in
    let token = or_else s.token client.token in
    if is_set token
    then Result.ok (record s {
      name = name;
      user = or_else user (some default_user);
      token = token;
      retry_interval = or_else s.retry_interval (some client.retry_interval);
    })
    else Result.err ConfigError.token_not_set

-- `for (name, s) in &mut services`, until an error.
unfoldable pub validate_services :
    {S : Type 0} → (Text → S → Result S) → List (Text × S) → Result (List (Text × S))
validate_services check [] = Result.ok []
validate_services check ((name, s) ∷ m) =
    let rest = validate_services check m in
    elim (check name s) [
      | Result.err e ↦ Result.err e
      | Result.ok s' ↦ elim rest [
        | Result.err e ↦ Result.err e
        | Result.ok m' ↦ Result.ok ((name, s') ∷ m')
      ]
    ]

-- "socks5" and "http"
abbrev pub socks5 : Text
socks5 = 115 ∷ 111 ∷ 99 ∷ 107 ∷ 115 ∷ 53 ∷ []

abbrev pub http : Text
http = 104 ∷ 116 ∷ 116 ∷ 112 ∷ []

module _ (scheme : Text → Text) where
  -- The match on the proxy's scheme.
  unfoldable pub is_proxy_known : Option Text → Bool
  is_proxy_known none = true
  is_proxy_known (some u) =
      ite (text_discrete (scheme u) socks5) true (ite (text_discrete (scheme u) http) true false)

  -- The match on the transport's type.
  unfoldable pub validate_transport_type : TransportConfig → Result Unit
  validate_transport_type config = elim config.transport_type [
    | TransportType.tcp ↦ Result.ok tt
    | TransportType.udp ↦ elim config.udp [
      | none ↦ Result.err ConfigError.missing_udp
      | some c ↦ elim c.psk [ [] ↦ Result.err ConfigError.empty_psk | _ ∷ _ ↦ Result.ok tt ]
    ]
  ]

  unfoldable pub validate_transport_config : TransportConfig → Result Unit
  validate_transport_config config =
      if is_proxy_known config.tcp.proxy
      then validate_transport_type config
      else Result.err ConfigError.unknown_proxy_scheme

  unfoldable pub validate_server_config : ServerConfig → Result ServerConfig
  validate_server_config server =
      elim (validate_services (validate_server_service server.users) server.services) [
        | Result.err e ↦ Result.err e
        | Result.ok services ↦ elim (validate_transport_config server.transport) [
          | Result.err e ↦ Result.err e
          | Result.ok _ ↦ Result.ok (record server { services = services })
        ]
      ]

  unfoldable pub validate_client_config : ClientConfig → Result ClientConfig
  validate_client_config client =
      elim (validate_services (validate_client_service client) client.services) [
        | Result.err e ↦ Result.err e
        | Result.ok services ↦ elim (validate_transport_config client.transport) [
          | Result.err e ↦ Result.err e
          | Result.ok _ ↦ Result.ok (record client { services = services })
        ]
      ]

  -- `if let Some(x) = x.as_mut() { validate(x)?; }`
  unfoldable pub validate_part : {A : Type 0} → (A → Result A) → Option A → Result (Option A)
  validate_part validate none = Result.ok none
  validate_part validate (some a) = elim (validate a) [
    | Result.err e ↦ Result.err e
    | Result.ok a' ↦ Result.ok (some a')
  ]

  -- `Config::from_str`, over the parser of the file.
  unfoldable pub from_str : (Text → Option Config) → Text → Result Config
  from_str parse s = elim (parse s) [
    | none ↦ Result.err ConfigError.not_parsed
    | some config ↦ elim (validate_part validate_server_config config.server) [
      | Result.err e ↦ Result.err e
      | Result.ok server ↦ elim (validate_part validate_client_config config.client) [
        | Result.err e ↦ Result.err e
        | Result.ok client ↦
            if is_set server
            then Result.ok (record { server = server; client = client })
            else if is_set client
            then Result.ok (record { server = server; client = client })
            else Result.err ConfigError.neither
      ]
    ]
  ]
