-- ===== src/Config/Resolved.antt =====
-- What the services of a valid configuration have.
use rathole_ng.Prelude.{◌⊎◌, ◌≡◌, refl, true, some, List, [], ◌∷◌, arith, Option-cases, inl, inr}
use rathole_ng.Collections.HashMap
use rathole_ng.Config.{
  Text, text_discrete, ClientServiceConfig, ServerServiceConfig, UserConfig, ClientConfig,
  ServerConfig, ConfigError, Result,
}
use rathole_ng.Config.Validation.{
  default_user, or_else, token_of, service_owner, validate_server_service, validate_client_service,
  validate_services, validate_server_config, validate_client_config,
}

-- What the server makes of a service: the owner is a user that is defined, and a token is set.
pub record IsServerService (users : List (Text × UserConfig)) (name : Text)
    (s t : ServerServiceConfig) : Type 0 where
  pub owner : Text
  pub secret : Text
  pub named : t.name ≡ name
  pub owned : t.user ≡ some owner
  pub owner_known : HashMap.contains_key text_discrete owner users ≡ true
  pub owner_kept : or_else s.user (some owner) ≡ some owner
  pub secret_set : t.token ≡ some secret
  pub secret_kept : or_else s.token (token_of (HashMap.get text_discrete owner users)) ≡ some secret
  pub rest_kept :
      (t.service_type ≡ s.service_type) × (t.bind_addr ≡ s.bind_addr) × (t.nodelay ≡ s.nodelay)

pub Result-cases :
    {A : Type 0} (r : Result A)
    → ((e : ConfigError) × (r ≡ Result.err e)) ⊎ ((a : A) × (r ≡ Result.ok a))
Result-cases (Result.err e) = inl (e, refl)
Result-cases (Result.ok a) = inr (a, refl)

owner_lem :
    (users : List (Text × UserConfig)) (s : ServerServiceConfig) (u : Text)
    → service_owner users s ≡ Result.ok u
    → (HashMap.contains_key text_discrete u users ≡ true) × (or_else s.user (some u) ≡ some u)
unfolding service_owner
owner_lem users s u e = (ground arith, ground arith)

validate_server_service_lem :
    (users : List (Text × UserConfig)) (name : Text) (s t : ServerServiceConfig)
    → validate_server_service users name s ≡ Result.ok t
    → IsServerService users name s t
unfolding validate_server_service service_owner
validate_server_service_lem users name s t e = elim (Result-cases (service_owner users s)) [
  | inl (x, h) ↦ absurd (ground arith)
  | inr (u, h) ↦
      let token = or_else s.token (token_of (HashMap.get text_discrete u users)) in
      elim (Option-cases token) [
        | inl h2 ↦ absurd (ground arith)
        | inr (k, h2) ↦
            let o = owner_lem users s u h in
            record {
              owner = u;
              secret = k;
              named = ground arith;
              owned = ground arith;
              owner_known = o.0;
              owner_kept = o.1;
              secret_set = ground arith;
              secret_kept = h2;
              rest_kept = (ground arith, ground arith, ground arith);
            }
      ]
]

-- Validating keeps the names, and each service is what its own round makes of it.
get-validate_services :
    {S : Type 0} (check : Text → S → Result S) (name : Text) (s : S) (m m' : List (Text × S))
    → validate_services check m ≡ Result.ok m'
    → HashMap.get text_discrete name m ≡ some s
    → (t : S) × (check name s ≡ Result.ok t) × (HashMap.get text_discrete name m' ≡ some t)
unfolding validate_services HashMap.get
get-validate_services check name s [] m' e found = absurd (ground arith)
get-validate_services check name s ((j, x) ∷ m) m' e found = elim (Result-cases (check j x)) [
  | inl (y, h) ↦ absurd (ground arith)
  | inr (x', h) ↦ elim (Result-cases (validate_services check m)) [
    | inl (y, h2) ↦ absurd (ground arith)
    | inr (m2, h2) ↦ elim (text_discrete j name) [
      | yes same ↦ (x', ground arith, ground arith)
      | no other ↦
          let (t, checked, kept) = get-validate_services check name s m m2 h2 (ground arith) in
          (t, checked, ground arith)
    ]
  ]
]

-- What the client makes of a service: a user and a token, its own, the client's or the default one.
pub record IsClientService (client : ClientConfig) (name : Text) (s t : ClientServiceConfig)
    : Type 0 where
  pub secret : Text
  pub named : t.name ≡ name
  pub owned : t.user ≡ or_else (or_else s.user client.user) (some default_user)
  pub secret_set : t.token ≡ some secret
  pub secret_kept : or_else s.token client.token ≡ some secret
  pub retry_set : t.retry_interval ≡ or_else s.retry_interval (some client.retry_interval)
  pub rest_kept :
      (t.service_type ≡ s.service_type)
      × (t.local_addr ≡ s.local_addr)
      × (t.remote_bind_addr ≡ s.remote_bind_addr)

validate_client_service_lem :
    (client : ClientConfig) (name : Text) (s t : ClientServiceConfig)
    → validate_client_service client name s ≡ Result.ok t
    → IsClientService client name s t
unfolding validate_client_service
validate_client_service_lem client name s t e = elim (Option-cases (or_else s.token client.token)) [
  | inl h ↦ absurd (ground arith)
  | inr (k, h) ↦ record {
    secret = k;
    named = ground arith;
    owned = ground arith;
    secret_set = ground arith;
    secret_kept = h;
    retry_set = ground arith;
    rest_kept = (ground arith, ground arith, ground arith);
  }
]

module _ (scheme : Text → Text) where
  -- In a server's configuration that passes, each service has its name, a user that is defined and
  -- a token: those it gave itself, or else the user `default` and the token of its user.
  pub validate_server_config-IsServerService :
      (server result : ServerConfig) (name : Text) (s : ServerServiceConfig)
      → validate_server_config scheme server ≡ Result.ok result
      → HashMap.get text_discrete name server.services ≡ some s
      → (t : ServerServiceConfig) × (HashMap.get text_discrete name result.services ≡ some t)
        × IsServerService server.users name s t
  unfolding validate_server_config
  validate_server_config-IsServerService server result name s e found =
      let check = validate_server_service server.users in
      elim (Result-cases (validate_services check server.services)) [
        | inl (x, h) ↦ absurd (ground arith)
        | inr (services, h) ↦
            let (t, checked, kept) =
              get-validate_services check name s server.services services h found in
            let same : result.services ≡ services = ground arith in
            (t, rw same kept, validate_server_service_lem server.users name s t checked)
      ]

  -- In a client's configuration that passes, each service has its name, a user, a token and a retry
  -- interval: its own, or else the client's, and for a user that neither gives `default`.
  pub validate_client_config-IsClientService :
      (client result : ClientConfig) (name : Text) (s : ClientServiceConfig)
      → validate_client_config scheme client ≡ Result.ok result
      → HashMap.get text_discrete name client.services ≡ some s
      → (t : ClientServiceConfig) × (HashMap.get text_discrete name result.services ≡ some t)
        × IsClientService client name s t
  unfolding validate_client_config
  validate_client_config-IsClientService client result name s e found =
      let check = validate_client_service client in
      elim (Result-cases (validate_services check client.services)) [
        | inl (x, h) ↦ absurd (ground arith)
        | inr (services, h) ↦
            let (t, checked, kept) =
              get-validate_services check name s client.services services h found in
            let same : result.services ≡ services = ground arith in
            (t, rw same kept, validate_client_service_lem client name s t checked)
      ]
