-- ===== src/Client.antt =====
-- src/client.rs: the control channels of a client, one for each service, and the hot reload.
-- The handle that `ControlChannelHandle::new` makes is an argument; what runs behind it is in the
-- child modules. A handle that leaves the map is dropped, which ends its channel.
pub mod Handshake
mod Tests
mod ChannelTests
mod RunTests
pub mod Agreement
pub mod Visiting
pub mod Control
pub mod Retrying
pub mod Forwarder
pub mod Isolation
pub mod Stranding
pub mod Reload
pub mod DataChannel
pub mod Channel
pub mod Tunnel
pub mod Runs
pub mod ProxyHeader
use rathole_ng.Prelude.{ℕ, List, [], ◌∷◌}
use rathole_ng.Collections.HashMap
use rathole_ng.Config.{Text, text_discrete, ClientServiceConfig, ClientConfig}
use rathole_ng.Watcher.{ServiceChange, ConfigChange}

pub record Client (H : Type 0) : Type 0 where
  pub config : ClientConfig
  pub service_handles : List (Text × H)

module _ {H : Type 0} (handle_new : ClientServiceConfig → Text → ℕ → H) where
  -- `ControlChannelHandle::new`, with what the client passes to it.
  abbrev pub handle_for : ClientConfig → ClientServiceConfig → H
  handle_for config s = handle_new s config.remote_addr config.heartbeat_timeout

  -- `for (name, config) in &self.config.services`
  unfoldable pub start_services :
      ClientConfig → List (Text × ClientServiceConfig) → List (Text × H) → List (Text × H)
  start_services config [] handles = handles
  start_services config ((name, s) ∷ services) handles =
      start_services config services
        (HashMap.insert text_discrete name (handle_for config s) handles)

  -- The client when its loop begins.
  unfoldable pub start : ClientConfig → Client H
  start config = record {
    config = config;
    service_handles = start_services config config.services [];
  }

  unfoldable pub handle_hot_reload : ConfigChange → Client H → Client H
  handle_hot_reload (ConfigChange.client_change (ServiceChange.add cfg)) c = record c {
    service_handles =
        HashMap.insert text_discrete cfg.name (handle_for c.config cfg) c.service_handles;
  }
  handle_hot_reload (ConfigChange.client_change (ServiceChange.delete s)) c = record c {
    service_handles = HashMap.remove text_discrete s c.service_handles;
  }
  handle_hot_reload (ConfigChange.server_change _) c = c
  handle_hot_reload (ConfigChange.general _) c = c

  -- The loop of `run`, for the events that come before the shutdown.
  unfoldable pub run : List ConfigChange → Client H → Client H
  run [] c = c
  run (e ∷ es) c = run es (handle_hot_reload e c)
