-- ===== src/Server/Visitor.antt =====
-- src/server.rs: the handshake of a visitor, and the dispatch on a connection's first message.
-- The two nonces, the parser of addresses, what is read, and whether a message could be sent are
-- arguments. The challenge is sent as bare bytes, and is not among the messages.
use rathole_ng.Prelude.{
  ℕ, Bool, true, false, Option, none, some, List, [], ◌∷◌, ◌++◌, if◌then◌else◌, ite,
}
use rathole_ng.Net.{SocketAddr, port}
use rathole_ng.Config.{Text, text_discrete, UserConfig, ServerServiceConfig}
use rathole_ng.Config.Ports.{is_port_allowed}
use rathole_ng.Protocol.{Digest, Hello, Auth, VisitorAuth, VisitorAck, PacketMessage}
use rathole_ng.MultiMap.{MultiMap, remove1}
use rathole_ng.MultiMap
use rathole_ng.Server.{Server}
use rathole_ng.Server.Handshake.{
  HandshakeResult, token_text, do_control_channel_handshake, data_channel_handle,
}

-- "visitor:"
abbrev pub visitor_word : Text
visitor_word = 118 ∷ 105 ∷ 115 ∷ 105 ∷ 116 ∷ 111 ∷ 114 ∷ 58 ∷ []

module _ (digest : Text → Digest) where
  -- The closure of `find`.
  unfoldable pub answers : Digest → Digest → UserConfig → Bool
  answers nonce token_digest u =
      ite (text_discrete (digest (token_text u.token ++ nonce)) token_digest) true false

  -- `users.iter().find(..)`
  unfoldable pub find_user : Digest → Digest → List (Text × UserConfig) → Option (Text × UserConfig)
  find_user nonce token_digest [] = none
  find_user nonce token_digest (u ∷ users) =
      let rest = find_user nonce token_digest users in
      if answers nonce token_digest u.1 then some u else rest

  -- The configuration that the visitor's service gets.
  unfoldable pub visitor_service : Text × UserConfig → VisitorAuth → ServerServiceConfig
  visitor_service u auth = record {
    service_type = auth.service_type;
    name = visitor_word ++ u.0;
    bind_addr = auth.bind_addr;
    user = some u.0;
    token = (u.1).token;
    nodelay = none;
  }

  -- `digest("{user}:visitor:{bind_addr}")`
  unfoldable pub visitor_digest : Text × UserConfig → VisitorAuth → Digest
  visitor_digest u auth = digest (u.0 ++ (58 ∷ (visitor_word ++ auth.bind_addr)))

module _ {H : Type 0} (digest : Text → Digest) (handle_of : ServerServiceConfig → ℕ → H) where
  -- The end of a handshake that succeeds: the old channel is dropped and the new one is stored.
  unfoldable pub establish_visitor :
      Text × UserConfig → VisitorAuth → Digest → List PacketMessage → Server H → HandshakeResult H
  unfolding visitor_service visitor_digest
  establish_visitor u auth session sent s =
      let key1 = visitor_digest digest u auth in
      let handle = handle_of (visitor_service digest u auth) s.config.heartbeat_interval in
      elim (remove1 text_discrete text_discrete key1 s.control_channels) [
        | none ↦ record { sent = sent; accepted = false; channels = none }
        | some (w, _) ↦ elim (MultiMap.insert text_discrete text_discrete key1 session handle w) [
          | none ↦ record { sent = sent; accepted = false; channels = none }
          | some (w', _) ↦ record { sent = sent; accepted = true; channels = some w' }
        ]
      ]

  abbrev pub refuse : List PacketMessage → Server H → HandshakeResult H
  refuse sent s = record { sent = sent; accepted = false; channels = some s.control_channels }

  abbrev pub visitor_ack : VisitorAck → List PacketMessage
  visitor_ack a = PacketMessage.visitor_ack a ∷ []

  -- A user has answered the challenge: the address, its port, and the two messages.
  unfoldable pub admit :
      (Text → Option SocketAddr)
      → Text × UserConfig
      → VisitorAuth
      → Digest
      → Bool
      → Bool
      → Server H
      → HandshakeResult H
  unfolding establish_visitor
  admit parse u auth session acked keyed s =
      let key = PacketMessage.auth (record { digest = session }) in
      let done =
        establish_visitor u auth session (PacketMessage.visitor_ack VisitorAck.ok ∷ key ∷ []) s in
      elim (parse auth.bind_addr) [
        | none ↦ refuse (visitor_ack VisitorAck.bind_error) s
        | some addr ↦
            if is_port_allowed (u.1).allowed_ports (port addr)
            then (if acked
                then (if keyed then done else refuse (visitor_ack VisitorAck.ok) s)
                else refuse [] s)
            else refuse (visitor_ack VisitorAck.port_denied) s
      ]

  unfoldable pub do_visitor_channel_handshake :
      (Text → Option SocketAddr)
      → Digest
      → Digest
      → Bool
      → Option VisitorAuth
      → Bool
      → Bool
      → Server H
      → HandshakeResult H
  unfolding admit
  do_visitor_channel_handshake parse nonce session greeted auth acked keyed s =
      if greeted
      then elim auth [
        | none ↦ refuse [] s
        | some a ↦ elim (find_user digest nonce a.token_digest s.config.users) [
          | none ↦ refuse (visitor_ack VisitorAck.auth_failed) s
          | some u ↦ admit parse u a session acked keyed s
        ]
      ]
      else refuse [] s

  -- What a connection turns out to be.
  pub data Connection : Type 0 where
    closed : Connection
    control visitor : HandshakeResult H → Connection
    data_channel : Option (Option H) → Connection

  -- `handle_connection`; the rest of what a control channel and a visitor send is an argument.
  unfoldable pub handle_connection :
      (Text → Option SocketAddr)
      → Digest
      → Digest
      → Option Hello
      → Option Auth
      → Option VisitorAuth
      → Server H
      → Connection
  handle_connection parse nonce session none auth vauth s = Connection.closed
  handle_connection parse nonce session (some (Hello.control_channel_hello _ d)) auth vauth s =
      Connection.control (do_control_channel_handshake digest handle_of nonce d auth true true s)
  handle_connection parse nonce session (some (Hello.data_channel_hello _ n)) auth vauth s =
      Connection.data_channel (data_channel_handle n s)
  handle_connection parse nonce session (some (Hello.visitor_hello _ _)) auth vauth s =
      Connection.visitor (do_visitor_channel_handshake parse nonce session true vauth true true s)
