-- ===== src/Client/Tunnel.antt =====
-- src/client.rs and src/server.rs: a client's channel as a whole, with the server.
use rathole_ng.Prelude.{ℕ, true, none, some, List}
use rathole_ng.Collections.HashMap
use rathole_ng.Config.{Text, ClientServiceConfig, ServerServiceConfig}
use rathole_ng.Protocol.{Digest, Hello, current_proto_version, as_ack}
use rathole_ng.MultiMap.{MultiMap}
use rathole_ng.Server.{Server}
use rathole_ng.Server.Channel.{ControlEvent, control_run}
use rathole_ng.Client.Retrying.{arrive}
use rathole_ng.Client.Agreement.{first_of, server_side}
use rathole_ng.Client.Channel.{Channel, RunInput}

module _ {H : Type 0} (digest : Text → Digest) (pad : Digest)
    (handle_of : ServerServiceConfig → ℕ → H) where
  -- What a run meets when every message arrives, at a server that then writes for the events.
  abbrev pub meets : ClientServiceConfig → Digest → Server H → ℕ → List ControlEvent → RunInput
  meets c nonce s interval es = record {
    resolved = true;
    connected = true;
    greeted = true;
    authed = true;
    hello = some (Hello.control_channel_hello current_proto_version nonce);
    ack = first_of as_ack (server_side digest handle_of c nonce s).sent;
    challenge = none;
    visitor_ack = none;
    session = none;
    events = arrive (control_run interval es);
  }
