-- ===== src/Watcher.antt =====
-- src/config_watcher.rs: what changed between two configurations.
-- The two enums of service changes have one shape, and are one type here with the service's type as
-- its argument. The watch on the file and the channel are not modelled.
pub mod Replay
pub mod SameMap
pub mod Rounds
pub mod Tracking
mod Tests
use rathole_ng.Prelude.{
  ℕ, ◌≡◌, Bool, true, false, not, ◌&&◌, ◌||◌, Option, none, some, List, [], ◌∷◌, ◌++◌, map, ◌==◌,
  if◌then◌else◌, ite, length, ℕ_discrete,
}
use mathlib.Core.Option
use mathlib.Core.List.{List-discrete}
use rathole_ng.Collections.HashMap
use rathole_ng.Config.{
  Text, text_discrete, ClientServiceConfig, ServerServiceConfig, UserConfig, TransportConfig,
  ClientConfig, ServerConfig, Config,
}
use rathole_ng.Config.Validation.{is_set}

pub data ServiceChange (S : Type 0) : Type 0 where
  add : S → ServiceChange S
  delete : Text → ServiceChange S

pub data ConfigChange : Type 0 where
  general : Config → ConfigChange
  server_change : ServiceChange ServerServiceConfig → ConfigChange
  client_change : ServiceChange ClientServiceConfig → ConfigChange

-- The derived `PartialEq` of the types with no map in them.
unfoldable pub user_discrete : Discrete UserConfig
user_discrete = hlevel (ℕ_discrete, List-discrete, Option.discrete)

unfoldable pub transport_discrete : Discrete TransportConfig
transport_discrete = hlevel (ℕ_discrete, List-discrete, Option.discrete)

unfoldable pub server_service_discrete : Discrete ServerServiceConfig
server_service_discrete = hlevel (ℕ_discrete, List-discrete, Option.discrete)

unfoldable pub client_service_discrete : Discrete ClientServiceConfig
client_service_discrete = hlevel (ℕ_discrete, List-discrete, Option.discrete)

abbrev bool_discrete : Discrete Bool
bool_discrete = hlevel

-- `a != b` on Booleans
abbrev pub differ : Bool → Bool → Bool
differ true b = not b
differ false b = b

abbrev pub decides {ℓ} : {A : Type ℓ} → Discrete A → A → A → Bool
decides dec a b = ite (dec a b) true false

-- `HashMap`'s `==`: the lengths are equal and the second has each entry of the first.
unfoldable pub has_entries : {S : Type 0} → Discrete S → List (Text × S) → List (Text × S) → Bool
has_entries dec [] n = true
has_entries dec ((name, s) ∷ m) n =
    elim (HashMap.get text_discrete name n) [ none ↦ false | some s' ↦ decides dec s s' ]
    && has_entries dec m n

unfoldable pub same_map : {S : Type 0} → Discrete S → List (Text × S) → List (Text × S) → Bool
same_map dec m n = (length m == length n) && has_entries dec m n

abbrev pub same_option : {A : Type 0} → (A → A → Bool) → Option A → Option A → Bool
same_option same none none = true
same_option same (some a) (some b) = same a b
same_option same _ _ = false

unfoldable pub same_server : ServerConfig → ServerConfig → Bool
same_server a b =
    decides text_discrete a.bind_addr b.bind_addr
    && same_map user_discrete a.users b.users
    && same_map server_service_discrete a.services b.services
    && decides transport_discrete a.transport b.transport
    && (a.heartbeat_interval == b.heartbeat_interval)

abbrev text_option_discrete : Discrete (Option Text)
text_option_discrete = Option.discrete text_discrete

unfoldable pub same_client : ClientConfig → ClientConfig → Bool
same_client a b =
    decides text_discrete a.remote_addr b.remote_addr
    && decides text_option_discrete a.user b.user
    && decides text_option_discrete a.token b.token
    && decides (Option.discrete bool_discrete) a.prefer_ipv6 b.prefer_ipv6
    && same_map client_service_discrete a.services b.services
    && decides transport_discrete a.transport b.transport
    && (a.heartbeat_timeout == b.heartbeat_timeout)
    && (a.retry_interval == b.retry_interval)

-- `trait InstanceConfig`
pub record InstanceConfig (T S : Type 0) : Type 0 where
  pub service_discrete : Discrete S
  pub equal_without_service : T → T → Bool
  pub service_change : ServiceChange S → ConfigChange
  pub get_services : T → List (Text × S)

unfoldable pub server_instance : InstanceConfig ServerConfig ServerServiceConfig
server_instance = record {
  service_discrete = server_service_discrete;
  equal_without_service =
      λ a b. same_server (record a { services = [] }) (record b { services = [] });
  service_change = ConfigChange.server_change;
  get_services = λ a. a.services;
}

unfoldable pub client_instance : InstanceConfig ClientConfig ClientServiceConfig
client_instance = record {
  service_discrete = client_service_discrete;
  equal_without_service =
      λ a b. same_client (record a { services = [] }) (record b { services = [] });
  service_change = ConfigChange.client_change;
  get_services = λ a. a.services;
}

module _ {S : Type 0} (dec : Discrete S) where
  -- `old.keys().filter(..)`: the services that are gone.
  unfoldable pub deletions : List (Text × S) → List (Text × S) → List (ServiceChange S)
  deletions new [] = []
  deletions new ((name, _) ∷ old) =
      let rest = deletions new old in
      if HashMap.contains_key text_discrete name new then rest else ServiceChange.delete name ∷ rest

  -- `new.iter().filter(..)`: the services that are new or differ.
  unfoldable pub additions : List (Text × S) → List (Text × S) → List (ServiceChange S)
  additions old [] = []
  additions old ((name, c) ∷ new) =
      let rest = additions old new in
      if same_option (decides dec) (HashMap.get text_discrete name old) (some c)
      then rest
      else ServiceChange.add c ∷ rest

  -- `deletions.chain(addition)`
  unfoldable pub service_changes : List (Text × S) → List (Text × S) → List (ServiceChange S)
  service_changes old new = deletions new old ++ additions old new

-- `none` indicates that a general change is needed.
unfoldable pub calculate_instance_config_events :
    {T S : Type 0} → InstanceConfig T S → T → T → Option (List ConfigChange)
calculate_instance_config_events i old new =
    if i.equal_without_service old new
    then some (
        map i.service_change
          (service_changes i.service_discrete (i.get_services old) (i.get_services new)))
    else none

unfoldable pub same_config : Config → Config → Bool
same_config a b =
    same_option same_server a.server b.server && same_option same_client a.client b.client

-- `if old.x != new.x { match calculate(..) { .. } }`, where both are there or neither.
unfoldable pub part_events :
    {T S : Type 0}
    → InstanceConfig T S
    → (T → T → Bool)
    → Option T
    → Option T
    → Option (List ConfigChange)
part_events i same (some a) (some b) =
    if same a b then some [] else calculate_instance_config_events i a b
part_events i same _ _ = some []

unfoldable pub calculate_events : Config → Config → Option (List ConfigChange)
calculate_events old new =
    if same_config old new
    then none
    else if differ (is_set old.server) (is_set new.server)
        || differ (is_set old.client) (is_set new.client)
    then some (ConfigChange.general new ∷ [])
    else elim (part_events server_instance same_server old.server new.server) [
      | none ↦ some (ConfigChange.general new ∷ [])
      | some servers ↦ elim (part_events client_instance same_client old.client new.client) [
        | none ↦ some (ConfigChange.general new ∷ [])
        | some clients ↦ some (servers ++ clients)
      ]
    ]

-- One round of the watcher's loop: the file's configuration, `none` where it is invalid. The new
-- state of `old`, and the events that are sent.
unfoldable pub rescan : Config → Option Config → Config × List ConfigChange
rescan old none = (old, [])
rescan old (some new) = (new, elim (calculate_events old new) [ none ↦ [] | some events ↦ events ])
