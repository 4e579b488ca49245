-- ===== src/Config/Acceptance.antt =====
-- Which configurations pass.
use rathole_ng.Prelude.{
  ◌≡◌, refl, Bool, true, false, ◌&&◌, Option, none, some, List, [], ◌∷◌, if◌then◌else◌, arith,
}
use rathole_ng.Collections.HashMap
use rathole_ng.Config.{
  Text, text_discrete, TransportType, ClientServiceConfig, ServerServiceConfig, UserConfig,
  UdpTransportConfig, TransportConfig, ClientConfig, ServerConfig, Result,
}
use rathole_ng.Config.Validation.{
  default_user, is_set, or_else, token_of, service_owner, validate_server_service,
  validate_client_service, validate_services, is_proxy_known, validate_transport_type,
  validate_transport_config, validate_server_config, validate_client_config,
}

abbrev pub is_ok : {A : Type 0} → Result A → Bool
is_ok (Result.ok _) = true
is_ok (Result.err _) = false

-- Every service of the map passes the test.
unfoldable pub all_services : {S : Type 0} → (S → Bool) → List (Text × S) → Bool
all_services test [] = true
all_services test ((_, s) ∷ m) = test s && all_services test m

is_ok-validate_services :
    {S : Type 0} (check : Text → S → Result S) (test : S → Bool) (m : List (Text × S))
    → ((name : Text) (s : S) → is_ok (check name s) ≡ test s)
    → is_ok (validate_services check m) ≡ all_services test m
unfolding validate_services all_services
is_ok-validate_services check test [] h = refl
is_ok-validate_services check test ((name, s) ∷ m) h =
    ground (arith, h name s, is_ok-validate_services check test m h)

-- The owner of a service is defined, and one of the two has a token.
abbrev pub owner_of : ServerServiceConfig → Text
owner_of s = elim s.user [ none ↦ default_user | some u ↦ u ]

unfoldable pub is_served : List (Text × UserConfig) → ServerServiceConfig → Bool
is_served users s =
    HashMap.contains_key text_discrete (owner_of s) users
    && is_set (or_else s.token (token_of (HashMap.get text_discrete (owner_of s) users)))

is_ok-validate_server_service :
    (users : List (Text × UserConfig)) (name : Text) (s : ServerServiceConfig)
    → is_ok (validate_server_service users name s) ≡ is_served users s
unfolding validate_server_service service_owner is_served
is_ok-validate_server_service users name s = ground arith

unfoldable pub has_token : Option Text → ClientServiceConfig → Bool
has_token token s = is_set (or_else s.token token)

is_ok-validate_client_service :
    (client : ClientConfig) (name : Text) (s : ClientServiceConfig)
    → is_ok (validate_client_service client name s) ≡ has_token client.token s
unfolding validate_client_service has_token
is_ok-validate_client_service client name s = ground arith

-- The transport over UDP has a pre-shared key that is not empty.
unfoldable pub has_psk : Option UdpTransportConfig → Bool
has_psk none = false
has_psk (some c) = elim c.psk [ [] ↦ false | _ ∷ _ ↦ true ]

abbrev is_tcp : TransportType → Bool
is_tcp TransportType.tcp = true
is_tcp TransportType.udp = false

module _ (scheme : Text → Text) where
  unfoldable pub is_transport : TransportConfig → Bool
  is_transport config =
      is_proxy_known scheme config.tcp.proxy
      && (if is_tcp config.transport_type then true else has_psk config.udp)

  is_ok-validate_transport_config :
      (config : TransportConfig)
      → is_ok (validate_transport_config scheme config) ≡ is_transport config
  unfolding validate_transport_config validate_transport_type is_transport has_psk
  is_ok-validate_transport_config config = ground arith

  -- A server's configuration passes exactly when the owner of every service is defined, the service
  -- or its owner has a token, and the transport is in order.
  pub is_ok-validate_server_config :
      (server : ServerConfig)
      → is_ok (validate_server_config scheme server)
        ≡ (all_services (is_served server.users) server.services && is_transport server.transport)
  unfolding validate_server_config
  is_ok-validate_server_config server = ground (
    arith,
    is_ok-validate_services (validate_server_service server.users) (is_served server.users)
        server.services (is_ok-validate_server_service server.users),
    is_ok-validate_transport_config server.transport,
  )

  -- A client's configuration passes exactly when every service has a token or the client has one,
  -- and the transport is in order.
  pub is_ok-validate_client_config :
      (client : ClientConfig)
      → is_ok (validate_client_config scheme client)
        ≡ (all_services (has_token client.token) client.services && is_transport client.transport)
  unfolding validate_client_config
  is_ok-validate_client_config client = ground (
    arith,
    is_ok-validate_services (validate_client_service client) (has_token client.token)
        client.services (is_ok-validate_client_service client),
    is_ok-validate_transport_config client.transport,
  )
