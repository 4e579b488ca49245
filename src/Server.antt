-- ===== src/Server.antt =====
-- src/server.rs: the services of a server, by their digest, and the hot reload.
-- The digest of a text and the handle of a control channel are arguments. `none` is a fault of the
-- map of channels.
pub mod Reload
pub mod Handshake
pub mod Authentication
pub mod Channel
pub mod Pool
pub mod Visitor
pub mod Admission
pub mod Running
mod Tests
mod VisitorTests
use rathole_ng.Prelude.{◌≡◌, Option, none, some, List, [], ◌∷◌, ◌++◌, ite}
use rathole_ng.Collections.HashMap
use rathole_ng.Config.{Text, text_discrete, ServerServiceConfig, ServerConfig}
use rathole_ng.Config.Validation.{default_user}
use rathole_ng.Protocol.{Digest}
use rathole_ng.MultiMap.{MultiMap, remove1}
use rathole_ng.MultiMap
use rathole_ng.Watcher.{ServiceChange, ConfigChange}

-- A channel is found by its service and by its nonce.
pub record Server (H : Type 0) : Type 0 where
  pub config : ServerConfig
  pub services : List (Digest × ServerServiceConfig)
  pub control_channels : MultiMap Digest Digest H

abbrev pub user_of : ServerServiceConfig → Text
user_of s = elim s.user [ none ↦ default_user | some u ↦ u ]

module _ (digest : Text → Digest) where
  -- `digest("{user}:{name}")`
  unfoldable pub service_digest : ServerServiceConfig → Text → Digest
  service_digest s name = digest (user_of s ++ 58 ∷ name)

  unfoldable pub service_hashmap_from :
      List (Text × ServerServiceConfig)
      → List (Digest × ServerServiceConfig)
      → List (Digest × ServerServiceConfig)
  unfolding service_digest
  service_hashmap_from [] ret = ret
  service_hashmap_from ((name, s) ∷ services) ret =
      service_hashmap_from services (HashMap.insert text_discrete (service_digest s name) s ret)

  unfoldable pub generate_service_hashmap : ServerConfig → List (Digest × ServerServiceConfig)
  generate_service_hashmap config = service_hashmap_from config.services []

  -- `from_config_and_transport`
  unfoldable pub from_config : {H : Type 0} → ServerConfig → Server H
  from_config config = record {
    config = config;
    services = generate_service_hashmap config;
    control_channels = MultiMap.new;
  }

-- The loop over the services: the first one with the name.
unfoldable pub hash_to_remove : Text → List (Digest × ServerServiceConfig) → Option Digest
hash_to_remove name [] = none
hash_to_remove name ((hash, cfg) ∷ m) =
    ite (text_discrete cfg.name name) (some hash) (hash_to_remove name m)

module _ {H : Type 0} where
  -- `let _ = wg.remove1(&hash)`: the handle is dropped, which ends the channel.
  unfoldable pub drop_channel :
      Digest → List (Digest × ServerServiceConfig) → Server H → Option (Server H)
  drop_channel hash services s =
      elim (remove1 text_discrete text_discrete hash s.control_channels) [
        | none ↦ none
        | some (channels, _) ↦ some (record s { services = services; control_channels = channels })
      ]

  unfoldable pub handle_hot_reload : (Text → Digest) → ConfigChange → Server H → Option (Server H)
  handle_hot_reload digest (ConfigChange.server_change (ServiceChange.add cfg)) s =
      let hash = service_digest digest cfg cfg.name in
      drop_channel hash (HashMap.insert text_discrete hash cfg s.services) s
  handle_hot_reload digest (ConfigChange.server_change (ServiceChange.delete name)) s =
      elim (hash_to_remove name s.services) [
        | none ↦ some s
        | some hash ↦ drop_channel hash (HashMap.remove text_discrete hash s.services) s
      ]
  handle_hot_reload digest (ConfigChange.client_change _) s = some s
  handle_hot_reload digest (ConfigChange.general _) s = some s
