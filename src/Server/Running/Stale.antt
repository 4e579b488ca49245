-- ===== src/Server/Running/Stale.antt =====
-- A handshake that the hot reload overtakes.
use rathole_ng.Prelude.{ℕ, ◌≡◌, refl, ◌∙◌, true, Option, none, some, if_pos, ℕ_discrete}
use rathole_ng.Collections.HashMap
use rathole_ng.Net.{SocketAddr}
use rathole_ng.Config.{Text, text_discrete, ServerServiceConfig}
use rathole_ng.Protocol.{Digest}
use rathole_ng.MultiMap.{get2}
use rathole_ng.MultiMap.Replacing.{replace_lem}
use rathole_ng.Server.Reload.{IsServer}
use rathole_ng.Server.Handshake.{session_key, establish}
use rathole_ng.Server.Running.{
  Pending, Running, ServerEvent, authenticate, end_handshake, serve_event,
}

module _ {H : Type 0} (digest : Text → Digest) (handle_of : ServerServiceConfig → ℕ → H)
    (parse : Text → Option SocketAddr) where
  -- A client whose handshake began while its service was there gets its channel, under a new session
  -- key, though the service has left the server's services since; it is still not among them.
  pub stale_handshake_accepts :
      (id : ℕ) (p : Pending) (r : Running H)
      → IsServer r.server
      → HashMap.get ℕ_discrete id r.handshakes ≡ some p
      → HashMap.get text_discrete p.service_digest r.server.services ≡ none
      → let key = session_key digest handle_of p.service_config p.nonce in
        get2 text_discrete text_discrete key r.server.control_channels ≡ some none
        → (t : Running H) × (serve_event digest handle_of parse
              (ServerEvent.control_auth id key true)
              r
            ≡ some t)
          × (HashMap.get text_discrete p.service_digest t.server.services ≡ none)
          × (get2 text_discrete text_discrete key t.server.control_channels
              ≡ some (some (handle_of p.service_config r.server.config.heartbeat_interval)))
  unfolding serve_event authenticate establish end_handshake
  stale_handshake_accepts id p r v found absent free =
      let key = session_key digest handle_of p.service_config p.nonce in
      let handle = handle_of p.service_config r.server.config.heartbeat_interval in
      let (a, b, old, e, e', vb, _, got, _) =
        replace_lem text_discrete text_discrete r.server.control_channels p.service_digest key
          handle v free in
      (
        record r {
          server = (let s = r.server in record s { control_channels = b });
          handshakes = HashMap.remove ℕ_discrete id r.handshakes;
        },
        rw (serve_event, authenticate, found)
            (if_pos (text_discrete key key) refl _ _ ∙ (rw (establish, e, e') refl)),
        absent,
        got,
      )
