-- ===== src/Client/Reload.antt =====
-- src/client.rs and src/config_watcher.rs: what the hot reload makes of a client's channels.
use rathole_ng.Prelude.{
  ℕ, ◌≡◌, refl, sym, ap, ◌∙◌, true, Option, none, some, List, [], ◌∷◌, map, arith,
}
use rathole_ng.Collections.HashMap
use rathole_ng.Config.{Text, text_discrete, ClientServiceConfig, ClientConfig}
use rathole_ng.Watcher.{
  ServiceChange, ConfigChange, client_service_discrete, client_instance, service_changes,
  same_client, decides, calculate_instance_config_events,
}
use rathole_ng.Watcher.SameMap.{get-same_map}
use rathole_ng.Watcher.Replay.{replay, AreNamed, replay-service_changes}
use rathole_ng.Client.{Client, handle_for, start_services, start, handle_hot_reload, run}

module _ {H : Type 0} (handle_new : ClientServiceConfig → Text → ℕ → H) where
  -- The handle that a configuration gives a service, if there is the service.
  abbrev pub expected : ClientConfig → Option ClientServiceConfig → Option H
  expected config none = none
  expected config (some s) = some (handle_for handle_new config s)

  get-start_services :
      (config : ClientConfig) (services : List (Text × ClientServiceConfig))
      (handles : List (Text × H)) (k : Text)
      → HashMap.IsMap text_discrete services
      → HashMap.get text_discrete k (start_services handle_new config services handles)
        ≡ elim (HashMap.get text_discrete k services) [
          | none ↦ HashMap.get text_discrete k handles
          | some s ↦ some (handle_for handle_new config s)
        ]
  unfolding start_services HashMap.get
  get-start_services config [] handles k d = refl
  get-start_services config ((name, s) ∷ services) handles k d =
      let rest = HashMap.insert text_discrete name (handle_for handle_new config s) handles in
      ground (
        arith,
        get-start_services config services rest k d.1,
        HashMap.get-insert text_discrete name k (handle_for handle_new config s) handles,
      )

  get-start :
      (config : ClientConfig) (k : Text)
      → HashMap.IsMap text_discrete config.services
      → HashMap.get text_discrete k (start handle_new config).service_handles
        ≡ expected config (HashMap.get text_discrete k config.services)
  unfolding start HashMap.get
  get-start config k d = ground (arith, get-start_services config config.services [] k d)

  -- The client's map of handles follows the changes of the services.
  run-replay :
      (cs : List (ServiceChange ClientServiceConfig)) (c : Client H)
      (services : List (Text × ClientServiceConfig)) (k : Text)
      → ((j : Text)
          → HashMap.get text_discrete j c.service_handles
            ≡ expected c.config (HashMap.get text_discrete j services))
      → HashMap.get text_discrete k
          (run handle_new (map ConfigChange.client_change cs) c).service_handles
        ≡ expected c.config
            (HashMap.get text_discrete k (replay client_service_discrete (λ s. s.name) cs services))
  unfolding run replay handle_hot_reload
  run-replay [] c services k h = h k
  run-replay (ServiceChange.add s ∷ cs) c services k h = run-replay cs _ _ k λ j. ground (
    arith,
    h j,
    HashMap.get-insert text_discrete s.name j s services,
    HashMap.get-insert text_discrete s.name j (handle_for handle_new c.config s) c.service_handles,
  )
  run-replay (ServiceChange.delete name ∷ cs) c services k h = run-replay cs _ _ k λ j. ground (
    arith,
    h j,
    HashMap.get-remove text_discrete name j services,
    HashMap.get-remove text_discrete name j c.service_handles,
  )

  decides_eq : {A : Type 0} (dec : Discrete A) (a b : A) → decides dec a b ≡ true → a ≡ b
  decides_eq dec a b e = ground arith

  pub same_settings :
      (old new : ClientConfig) (events : List ConfigChange)
      → calculate_instance_config_events client_instance old new ≡ some events
      → (old.remote_addr ≡ new.remote_addr)
        × (old.heartbeat_timeout ≡ new.heartbeat_timeout)
        × (events
            ≡ map ConfigChange.client_change
                (service_changes client_service_discrete old.services new.services))
  unfolding calculate_instance_config_events client_instance same_client
  same_settings old new events e = (
    decides_eq text_discrete old.remote_addr new.remote_addr (ground arith),
    ground arith,
    ground arith,
  )

  -- The client has the handles that a configuration gives, with its address and its timeout.
  abbrev pub Tracks : ClientConfig → Client H → Type 0
  Tracks config c =
      (c.config.remote_addr ≡ config.remote_addr)
      × (c.config.heartbeat_timeout ≡ config.heartbeat_timeout)
      × ((j : Text)
          → HashMap.get text_discrete j c.service_handles
            ≡ expected config (HashMap.get text_discrete j config.services))

  expected_same :
      (a b : ClientConfig) (s : Option ClientServiceConfig)
      → a.remote_addr ≡ b.remote_addr
      → a.heartbeat_timeout ≡ b.heartbeat_timeout
      → expected a s ≡ expected b s
  expected_same a b none e e' = refl
  expected_same a b (some s) e e' = cc

  pub start-Tracks :
      (config : ClientConfig)
      → HashMap.IsMap text_discrete config.services
      → Tracks config (start handle_new config)
  unfolding start
  start-Tracks config d = (refl, refl, λ j. get-start config j d)

  run-config :
      (cs : List (ServiceChange ClientServiceConfig)) (c : Client H)
      → (run handle_new (map ConfigChange.client_change cs) c).config ≡ c.config
  unfolding run handle_hot_reload
  run-config [] c = refl
  run-config (ServiceChange.add s ∷ cs) c = run-config cs _
  run-config (ServiceChange.delete name ∷ cs) c = run-config cs _

  -- The changes between two configurations take a client from the one to the other.
  pub run-Tracks :
      (old new : ClientConfig) (events : List ConfigChange) (c : Client H)
      → HashMap.IsMap text_discrete new.services
      → AreNamed client_service_discrete (λ s. s.name) new.services
      → calculate_instance_config_events client_instance old new ≡ some events
      → Tracks old c
      → Tracks new (run handle_new events c)
  run-Tracks old new events c d n e (addr, timeout, h) =
      let (addr', timeout', same) = same_settings old new events e in
      let cs = service_changes client_service_discrete old.services new.services in
      let config = run-config cs c in
      rw same (
        ap (λ x. x.remote_addr) config ∙ addr ∙ addr',
        ap (λ x. x.heartbeat_timeout) config ∙ timeout ∙ timeout',
        λ k.
            run-replay cs c old.services k
              (λ j. h j ∙ expected_same old c.config _ (sym addr) (sym timeout))
            ∙ ap (expected c.config) (
                replay-service_changes client_service_discrete (λ s. s.name) old.services
                  new.services k d n)
            ∙ expected_same c.config new _ (addr ∙ addr') (timeout ∙ timeout'),
      )

  -- A client of a configuration is one of an equal configuration.
  pub same-Tracks :
      (old new : ClientConfig) (c : Client H)
      → HashMap.IsMap text_discrete old.services
      → HashMap.IsMap text_discrete new.services
      → same_client old new ≡ true
      → Tracks old c
      → Tracks new c
  unfolding same_client
  same-Tracks old new c d d' e (addr, timeout, h) =
      let addr' : old.remote_addr ≡ new.remote_addr =
        decides_eq text_discrete old.remote_addr new.remote_addr (ground arith) in
      let timeout' : old.heartbeat_timeout ≡ new.heartbeat_timeout = ground arith in
      (
        addr ∙ addr',
        timeout ∙ timeout',
        λ k.
            h k
            ∙ ap (expected old) (
                get-same_map client_service_discrete old.services new.services k d d'
                  (ground arith))
            ∙ expected_same old new _ addr' timeout',
      )

  -- After the changes that the watcher finds between two configurations, a client that was started
  -- with the old one has, for each name, the channel that a client started with the new one has: the
  -- same service, address and timeout, or none. The services of both are maps, and each new service
  -- has the name that it stands under.
  pub reload_as_restart :
      (old new : ClientConfig) (events : List ConfigChange) (k : Text)
      → HashMap.IsMap text_discrete old.services
      → HashMap.IsMap text_discrete new.services
      → AreNamed client_service_discrete (λ s. s.name) new.services
      → calculate_instance_config_events client_instance old new ≡ some events
      → HashMap.get text_discrete k (run handle_new events (start handle_new old)).service_handles
        ≡ HashMap.get text_discrete k (start handle_new new).service_handles
  unfolding start
  reload_as_restart old new events k d d' n e =
      let (addr, timeout, same) = same_settings old new events e in
      let cs = service_changes client_service_discrete old.services new.services in
      let followed = run-replay cs (start handle_new old) old.services k (λ j. get-start old j d) in
      let all =
        replay-service_changes client_service_discrete (λ s. s.name) old.services new.services k d'
          n in
      ground (arith, followed, all, get-start new k d')
