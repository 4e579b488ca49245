-- ===== src/Watcher/Tracking.antt =====
-- The events of a rescan lead from the services of the old file to those of the new one. What the
-- server makes of an event is in Server/Reload.antt: it goes by the digest of the user and the name.
use rathole_ng.Prelude.{
  ◌≡◌, ◌⊎◌, refl, sym, subst, ap, true, false, Option, none, some, List, [], ◌∷◌, ◌++◌, map, arith,
  Bool-cases, inl, inr,
}
use rathole_ng.Collections.HashMap
use rathole_ng.Config.{
  Text, text_discrete, Config, ServerConfig, ClientConfig, ServerServiceConfig, ClientServiceConfig,
}
use rathole_ng.Watcher.{
  ServiceChange, ConfigChange, server_service_discrete, client_service_discrete, same_map, differ,
  rescan, same_server, same_client, server_instance, client_instance, service_changes,
  calculate_instance_config_events, same_config, part_events, calculate_events,
}
use rathole_ng.Config.Validation.{is_set}
use rathole_ng.Watcher.Replay.{replay, AreNamed, replay-service_changes}
use rathole_ng.Watcher.SameMap.{get-same_map}

-- What the server's instance takes from the channel.
unfoldable pub server_changes : List ConfigChange → List (ServiceChange ServerServiceConfig)
server_changes [] = []
server_changes (ConfigChange.server_change c ∷ cs) = c ∷ server_changes cs
server_changes (ConfigChange.client_change c ∷ cs) = server_changes cs
server_changes (ConfigChange.general c ∷ cs) = server_changes cs

server_changes-append_clients :
    (cs : List (ServiceChange ServerServiceConfig)) (ds : List (ServiceChange ClientServiceConfig))
    → server_changes (map ConfigChange.server_change cs ++ map ConfigChange.client_change ds) ≡ cs
unfolding server_changes
server_changes-append_clients [] [] = refl
server_changes-append_clients [] (d ∷ ds) = server_changes-append_clients [] ds
server_changes-append_clients (c ∷ cs) ds = ap (λ r. c ∷ r) (server_changes-append_clients cs ds)

server_part :
    (a b : ServerConfig) (k : Text)
    → HashMap.IsMap text_discrete a.services
    → HashMap.IsMap text_discrete b.services
    → AreNamed server_service_discrete (λ s. s.name) b.services
    → (part_events server_instance same_server (some a) (some b) ≡ none)
      ⊎ ((cs : List (ServiceChange ServerServiceConfig)) × (part_events server_instance same_server
              (some a)
              (some b)
            ≡ some (map ConfigChange.server_change cs))
          × (HashMap.get text_discrete k
                (replay server_service_discrete (λ s. s.name) cs a.services)
              ≡ HashMap.get text_discrete k b.services))
unfolding part_events calculate_instance_config_events server_instance replay same_server
server_part a b k da db named = elim (Bool-cases (same_server a b)) [
  | inl e ↦ inr (
    [],
    ground arith,
    get-same_map server_service_discrete a.services b.services k da db (ground arith),
  )
  | inr e ↦ elim (Bool-cases (server_instance.equal_without_service a b)) [
    | inr h ↦ inl (ground arith)
    | inl h ↦ inr (
      service_changes server_service_discrete a.services b.services,
      ground arith,
      replay-service_changes server_service_discrete (λ s. s.name) a.services b.services k db named,
    )
  ]
]

client_part :
    (a b : Option ClientConfig)
    → (part_events client_instance same_client a b ≡ none)
      ⊎ ((cs : List (ServiceChange ClientServiceConfig)) × (part_events client_instance same_client
              a b
            ≡ some (map ConfigChange.client_change cs)))
unfolding part_events calculate_instance_config_events client_instance
client_part none b = inr ([], refl)
client_part (some a) none = inr ([], refl)
client_part (some a) (some b) = elim (Bool-cases (same_client a b)) [
  | inl e ↦ inr ([], ground arith)
  | inr e ↦ elim (Bool-cases (client_instance.equal_without_service a b)) [
    | inr h ↦ inl (ground arith)
    | inl h ↦ inr (service_changes client_service_discrete a.services b.services, ground arith)
  ]
]

same_server_of_config :
    (old new : Config) (a b : ServerConfig)
    → old.server ≡ some a
    → new.server ≡ some b
    → same_config old new ≡ true
    → same_map server_service_discrete a.services b.services ≡ true
unfolding same_config same_server
same_server_of_config old new a b ea eb e = ground arith

rescan_silent : (old new : Config) → same_config old new ≡ true → (rescan old (some new)).1 ≡ []
unfolding rescan calculate_events
rescan_silent old new e = ground arith

rescan_sends :
    (old new : Config) (a b : ServerConfig) (cs ds : List ConfigChange)
    → old.server ≡ some a
    → new.server ≡ some b
    → same_config old new ≡ false
    → part_events server_instance same_server (some a) (some b) ≡ some cs
    → part_events client_instance same_client old.client new.client ≡ some ds
    → ((rescan old (some new)).1 ≡ ConfigChange.general new ∷ [])
      ⊎ ((rescan old (some new)).1 ≡ cs ++ ds)
unfolding rescan calculate_events
rescan_sends old new a b cs ds ea eb e hs hc =
    elim (Bool-cases (differ (is_set old.client) (is_set new.client))) [
      | inl d ↦ inl (ground arith)
      | inr d ↦ inr (ground arith)
    ]

rescan_restarts :
    (old new : Config) (a b : ServerConfig)
    → old.server ≡ some a
    → new.server ≡ some b
    → same_config old new ≡ false
    → (part_events server_instance same_server (some a) (some b) ≡ none)
      ⊎ (part_events client_instance same_client old.client new.client ≡ none)
    → (rescan old (some new)).1 ≡ ConfigChange.general new ∷ []
unfolding rescan calculate_events
rescan_restarts old new a b ea eb e (inl h) = ground arith
rescan_restarts old new a b ea eb e (inr h) = ground arith

-- A rescan of a file with a server before and after, each service under its own name, either sends
-- the new configuration whole, for a restart, or sends events that lead from the old services of the
-- file to the new ones: replayed in order on the old ones, where an addition sets the service of its
-- name and a deletion removes that name, they give the new ones, name by name.
pub rescan_events_lead_on :
    (old new : Config) (a b : ServerConfig) (k : Text)
    → old.server ≡ some a
    → new.server ≡ some b
    → HashMap.IsMap text_discrete a.services
    → HashMap.IsMap text_discrete b.services
    → AreNamed server_service_discrete (λ s. s.name) b.services
    → ((rescan old (some new)).1 ≡ ConfigChange.general new ∷ [])
      ⊎ (HashMap.get text_discrete k (
            replay server_service_discrete
              (λ s. s.name)
              (server_changes (rescan old (some new)).1)
              a.services)
          ≡ HashMap.get text_discrete k b.services)
unfolding replay server_changes
rescan_events_lead_on old new a b k ea eb da db named =
    let follows : List ConfigChange → Type 0 = λ es.
      HashMap.get text_discrete k
        (replay server_service_discrete (λ s. s.name) (server_changes es) a.services)
      ≡ HashMap.get text_discrete k b.services in
    elim (Bool-cases (same_config old new)) [
      | inl e ↦ inr (
          subst follows (sym (rescan_silent old new e)) (
            get-same_map server_service_discrete a.services b.services k da db
              (same_server_of_config old new a b ea eb e)))
      | inr e ↦ elim (server_part a b k da db named) [
        | inl h ↦ inl (rescan_restarts old new a b ea eb e (inl h))
        | inr (cs, h, same) ↦ elim (client_part old.client new.client) [
          | inl h2 ↦ inl (rescan_restarts old new a b ea eb e (inr h2))
          | inr (ds, h2) ↦ elim (rescan_sends old new a b _ _ ea eb e h h2) [
            | inl r ↦ inl r
            | inr r ↦ inr (subst follows (sym r) (rw (server_changes-append_clients cs ds) same))
          ]
        ]
      ]
    ]
