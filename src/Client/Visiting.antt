-- ===== src/Client/Visiting.antt =====
-- src/client.rs and src/server.rs: the two sides of a visitor's handshake, with each other.
use rathole_ng.Prelude.{ℕ, Bool, true, false, List, Option, none, some, [], if◌then◌else◌}
use rathole_ng.Net.{SocketAddr}
use rathole_ng.Config.{Text, ClientServiceConfig, ServerServiceConfig}
use rathole_ng.Protocol.{
  Digest, PacketMessage, as_visitor_ack, as_auth, as_visitor_auth, as_hello, Hello,
}
use rathole_ng.Server.{Server}
use rathole_ng.Server.Handshake.{HandshakeResult}
use rathole_ng.Server.Visitor.{do_visitor_channel_handshake}
use rathole_ng.Client.Handshake.{ClientShake, visitor_handshake}
use rathole_ng.Client.Agreement.{first_of}

abbrev pub is_visitor : Option Hello → Bool
is_visitor none = false
is_visitor (some (Hello.control_channel_hello _ _)) = false
is_visitor (some (Hello.data_channel_hello _ _)) = false
is_visitor (some (Hello.visitor_hello _ _)) = true

module _ {H : Type 0} (digest : Text → Digest) (handle_of : ServerServiceConfig → ℕ → H)
    (parse : Text → Option SocketAddr) (c : ClientServiceConfig) (bind_addr : Text)
    (pad nonce session : Digest) (s : Server H) where
  -- All that the visitor sends, where the server's challenge comes.
  abbrev pub visitor_sends : List PacketMessage
  visitor_sends = (visitor_handshake digest c bind_addr pad true (some nonce) true none none).sent

  -- The server's part, on what the visitor sends: without a visitor's hello it does not come to it.
  abbrev pub visited : HandshakeResult H
  visited =
      if is_visitor (first_of (λ m. as_hello m) visitor_sends)
      then do_visitor_channel_handshake digest handle_of parse nonce session true
          (first_of as_visitor_auth visitor_sends) true true s
      else record { sent = []; accepted = false; channels = some s.control_channels }

  -- The client's part.
  abbrev pub visiting : ClientShake
  visiting =
      visitor_handshake digest c bind_addr pad true (some nonce) true
        (first_of as_visitor_ack visited.sent) (first_of as_auth visited.sent)
