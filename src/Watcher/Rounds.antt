-- ===== src/Watcher/Rounds.antt =====
-- The events of one round of the watcher, and the clients that follow them.
use rathole_ng.Prelude.{
  ◌≡◌, ◌⊎◌, refl, true, Option, none, some, List, [], ◌∷◌, ◌++◌, map, arith, Bool-cases,
  Option-cases, inl, inr, ◌||◌,
}
use rathole_ng.Config.{Config, ServerConfig, ClientConfig, ServerServiceConfig}
use rathole_ng.Config.Validation.{is_set}
use rathole_ng.Watcher.{
  ServiceChange, ConfigChange, server_instance, client_instance, same_server, same_client,
  same_config, differ, part_events, calculate_events, calculate_instance_config_events,
  service_changes, rescan, server_service_discrete,
}

-- What a round sends: nothing for an equal configuration, a restart, or the service changes of both
-- parts.
abbrev pub Sends : Config → Config → List ConfigChange → Type 0
Sends old new es =
    ((same_config old new ≡ true) × (es ≡ []))
    ⊎ (es ≡ ConfigChange.general new ∷ [])
    ⊎ ((ss cs : List ConfigChange) × (part_events server_instance same_server old.server new.server
          ≡ some ss)
        × (part_events client_instance same_client old.client new.client ≡ some cs)
        × (es ≡ ss ++ cs))

pub rescan_cases : (old new : Config) → Sends old new (rescan old (some new)).1
unfolding rescan calculate_events
rescan_cases old new = elim (Bool-cases (same_config old new)) [
  | inl e ↦ inl (e, ground arith)
  | inr e ↦
      elim (Bool-cases (
        differ (is_set old.server) (is_set new.server)
        || differ (is_set old.client) (is_set new.client))) [
          | inl d ↦ inr (inl (rw (rescan, calculate_events, e, d) refl))
          | inr d ↦
              elim (Option-cases (part_events server_instance same_server old.server new.server)) [
                | inl h ↦ inr (inl (rw (rescan, calculate_events, e, d, h) refl))
                | inr (ss, h) ↦
                    elim (Option-cases
                      (part_events client_instance same_client old.client new.client)) [
                        | inl h2 ↦ inr (inl (rw (rescan, calculate_events, e, d, h, h2) refl))
                        | inr (cs, h2) ↦
                            inr
                              (inr (ss, cs, h, h2, rw (rescan, calculate_events, e, d, h, h2) refl))
                      ]
              ]
        ]
]

-- The changes of the server's part are changes of its services.
pub server_part_changes :
    (a b : Option ServerConfig) (ss : List ConfigChange)
    → part_events server_instance same_server a b ≡ some ss
    → (xs : List (ServiceChange ServerServiceConfig)) × (ss ≡ map ConfigChange.server_change xs)
unfolding part_events calculate_instance_config_events server_instance
server_part_changes none b ss e = ([], ground arith)
server_part_changes (some a) none ss e = ([], ground arith)
server_part_changes (some a) (some b) ss e = elim (Bool-cases (same_server a b)) [
  | inl h ↦ ([], ground arith)
  | inr h ↦ elim (Bool-cases (server_instance.equal_without_service a b)) [
    | inl k ↦ (service_changes server_service_discrete a.services b.services, ground arith)
    | inr k ↦ absurd (ground arith)
  ]
]

-- Those of the client's part are the changes that `calculate_instance_config_events` finds, or none
-- for equal parts.
pub client_part_changes :
    (a b : ClientConfig) (cs : List ConfigChange)
    → part_events client_instance same_client (some a) (some b) ≡ some cs
    → ((same_client a b ≡ true) × (cs ≡ []))
      ⊎ (calculate_instance_config_events client_instance a b ≡ some cs)
unfolding part_events
client_part_changes a b cs e = elim (Bool-cases (same_client a b)) [
  | inl h ↦ inl (h, ground arith)
  | inr h ↦ inr (ground arith)
]
