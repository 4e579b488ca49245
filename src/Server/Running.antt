-- ===== src/Server/Running.antt =====
-- src/server.rs: the loop of `Server::run`, with the tasks of its connections.
-- A control channel's handshake waits for the client between the lookup of the service and the lock
-- on the channels, so that other connections and hot reloads come in between: it is two events. All
-- else that a connection does to the server is done under one lock, and is one event.
pub mod Kept
pub mod Earned
pub mod Serving
pub mod Safety
pub mod Stale
mod Tests
use rathole_ng.Prelude.{ℕ, Bool, true, Option, none, some, List, [], ◌∷◌, ite, ℕ_discrete}
use rathole_ng.Collections.HashMap
use rathole_ng.Net.{SocketAddr}
use rathole_ng.Config.{Text, text_discrete, ServerServiceConfig, ServerConfig}
use rathole_ng.Protocol.{Digest, VisitorAuth}
use rathole_ng.MultiMap.{MultiMap, clear}
use rathole_ng.Watcher.{ConfigChange}
use rathole_ng.Server.{Server, from_config, handle_hot_reload}
use rathole_ng.Server.Handshake.{session_key, establish, data_channel_handle}
use rathole_ng.Server.Visitor.{do_visitor_channel_handshake}

-- A handshake that waits for the client's authentication.
pub record Pending : Type 0 where
  pub service_digest : Digest
  pub service_config : ServerServiceConfig
  pub nonce : Digest

-- The handshakes stand under the numbers of their connections. What a handle got through its
-- `data_ch_tx` stands under the nonce that the data channel brought.
pub record Running (H : Type 0) : Type 0 where
  pub server : Server H
  pub handshakes : List (ℕ × Pending)
  pub data_channels : List (Digest × H)

-- A connection's number, the server's nonce and the service's digest; a connection's
-- authentication, and whether the acknowledgement could be sent; a connection that fails before; a
-- data channel's nonce; a visitor's two nonces and its answer, and whether the two messages could be
-- sent; a change of the configuration.
pub data ServerEvent : Type 0 where
  control_hello : ℕ → Digest → Digest → ServerEvent
  control_auth : ℕ → Digest → Bool → ServerEvent
  gone : ℕ → ServerEvent
  data_hello : Digest → ServerEvent
  visitor : Digest → Digest → VisitorAuth → Bool → Bool → ServerEvent
  update : ConfigChange → ServerEvent

module _ {H : Type 0} where
  -- `none` is a fault of the map of channels.
  abbrev pub with_channels : Option (MultiMap Digest Digest H) → Running H → Option (Running H)
  with_channels none r = none
  with_channels (some w) r =
      let s = r.server in some (record r { server = record s { control_channels = w } })

  abbrev pub with_server : Option (Server H) → Running H → Option (Running H)
  with_server none r = none
  with_server (some s) r = some (record r { server = s })

  -- The lookup of the service.
  unfoldable pub begin_handshake : ℕ → Digest → Digest → Running H → Running H
  begin_handshake id nonce service_digest r =
      elim (HashMap.get text_discrete service_digest r.server.services) [
        | none ↦ r
        | some cfg ↦ record r {
          handshakes =
              HashMap.insert ℕ_discrete id
                (record { service_digest = service_digest; service_config = cfg; nonce = nonce })
                r.handshakes;
        }
      ]

  unfoldable pub end_handshake : ℕ → Running H → Running H
  end_handshake id r = record r { handshakes = HashMap.remove ℕ_discrete id r.handshakes }

  unfoldable pub give_data_channel : Digest → Running H → Option (Running H)
  give_data_channel nonce r = elim (data_channel_handle nonce r.server) [
    | none ↦ none
    | some none ↦ some r
    | some (some handle) ↦ some (record r { data_channels = (nonce, handle) ∷ r.data_channels })
  ]

module _ {H : Type 0} (digest : Text → Digest) (handle_of : ServerServiceConfig → ℕ → H)
    (parse : Text → Option SocketAddr) where
  -- The rest of a control channel's handshake, from the authentication on.
  unfoldable pub authenticate : ℕ → Digest → Bool → Running H → Option (Running H)
  unfolding end_handshake
  authenticate id d acked r = elim (HashMap.get ℕ_discrete id r.handshakes) [
    | none ↦ some r
    | some p ↦
        let key = session_key digest handle_of p.service_config p.nonce in
        let done =
          establish digest handle_of p.service_config p.service_digest key acked r.server in
        ite (text_discrete key d) (with_channels done.channels (end_handshake id r))
          (some (end_handshake id r))
  ]

  unfoldable pub serve_event : ServerEvent → Running H → Option (Running H)
  unfolding begin_handshake end_handshake give_data_channel authenticate
  serve_event (ServerEvent.control_hello id nonce service_digest) r =
      some (begin_handshake id nonce service_digest r)
  serve_event (ServerEvent.control_auth id d acked) r = authenticate id d acked r
  serve_event (ServerEvent.gone id) r = some (end_handshake id r)
  serve_event (ServerEvent.data_hello nonce) r = give_data_channel nonce r
  serve_event (ServerEvent.visitor nonce session auth acked keyed) r =
      with_channels
        (do_visitor_channel_handshake digest handle_of parse nonce session true (some auth) acked
          keyed r.server).channels
        r
  serve_event (ServerEvent.update change) r =
      with_server (handle_hot_reload digest change r.server) r

  -- The loop, for the events that come before the shutdown.
  unfoldable pub serve : List ServerEvent → Running H → Option (Running H)
  serve [] r = some r
  serve (e ∷ es) r = elim (serve_event e r) [ none ↦ none | some r' ↦ serve es r' ]

  unfoldable pub started : ServerConfig → Running H
  started config = record {
    server = from_config digest config;
    handshakes = [];
    data_channels = [];
  }

  -- `self.control_channels.write().await.clear()`
  unfoldable pub shut_down : Running H → Option (Running H)
  shut_down r = with_channels (clear r.server.control_channels) r

  unfoldable pub run_server_loop : ServerConfig → List ServerEvent → Option (Running H)
  unfolding started shut_down
  run_server_loop config events = elim (serve events (started config)) [
    | none ↦ none
    | some r ↦ shut_down r
  ]
