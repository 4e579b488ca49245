-- ===== src/Client/Handshake.antt =====
-- src/client.rs: how a control channel and a visitor's control channel are set up.
-- What is read is an argument, `none` for an error; so is whether each message could be sent.
use rathole_ng.Prelude.{Bool, Option, none, some, List, [], ◌∷◌, ◌++◌, if◌then◌else◌}
use rathole_ng.Config.{Text, ClientServiceConfig}
use rathole_ng.Config.Validation.{default_user}
use rathole_ng.Protocol.{
  Digest, Hello, Auth, Ack, VisitorAuth, VisitorAck, PacketMessage, current_proto_version,
}

-- Why a channel is not set up. An error of the connection is one case.
pub data HandshakeError : Type 0 where
  broken unexpected_hello : HandshakeError
  refused : Ack → HandshakeError
  visitor_refused : VisitorAck → HandshakeError

-- The session key, or why there is none.
pub data Outcome : Type 0 where
  established : Digest → Outcome
  failed : HandshakeError → Outcome

-- The messages that were sent, and the outcome.
pub record ClientShake : Type 0 where
  pub sent : List PacketMessage
  pub outcome : Outcome

-- `unwrap_or(b"")`
abbrev pub token_bytes : Option Text → Text
token_bytes none = []
token_bytes (some t) = t

-- `unwrap_or("default")`
abbrev pub owner : Option Text → Text
owner none = default_user
owner (some u) = u

-- The match on the hello that the server sends.
unfoldable pub nonce_of : Hello → Option Digest
nonce_of (Hello.control_channel_hello _ d) = some d
nonce_of (Hello.data_channel_hello _ _) = none
nonce_of (Hello.visitor_hello _ _) = none

-- The match on the acknowledgement.
unfoldable pub on_ack : Digest → Option Ack → Outcome
on_ack key none = Outcome.failed HandshakeError.broken
on_ack key (some Ack.ok) = Outcome.established key
on_ack key (some Ack.service_not_exist) =
    Outcome.failed (HandshakeError.refused Ack.service_not_exist)
on_ack key (some Ack.auth_failed) = Outcome.failed (HandshakeError.refused Ack.auth_failed)

-- The match on the visitor's acknowledgement, and the session key that follows it.
unfoldable pub on_visitor_ack : Option VisitorAck → Option Auth → Outcome
on_visitor_ack none key = Outcome.failed HandshakeError.broken
on_visitor_ack (some VisitorAck.ok) none = Outcome.failed HandshakeError.broken
on_visitor_ack (some VisitorAck.ok) (some key) = Outcome.established key.digest
on_visitor_ack (some VisitorAck.auth_failed) key =
    Outcome.failed (HandshakeError.visitor_refused VisitorAck.auth_failed)
on_visitor_ack (some VisitorAck.port_denied) key =
    Outcome.failed (HandshakeError.visitor_refused VisitorAck.port_denied)
on_visitor_ack (some VisitorAck.bind_error) key =
    Outcome.failed (HandshakeError.visitor_refused VisitorAck.bind_error)

module _ (digest : Text → Digest) where
  -- The digest of `ControlChannelHandle::new`.
  unfoldable pub identity : ClientServiceConfig → Digest
  identity s = digest (owner s.user ++ 58 ∷ s.name)

  -- `digest(token + nonce)`
  unfoldable pub answer : ClientServiceConfig → Digest → Digest
  answer s nonce = digest (token_bytes s.token ++ nonce)

  -- `ControlChannel::run`, up to the acknowledgement.
  unfoldable pub control_handshake :
      ClientServiceConfig → Bool → Option Hello → Bool → Option Ack → ClientShake
  unfolding identity answer
  control_handshake s greeted hello authed ack =
      let own =
        PacketMessage.hello (Hello.control_channel_hello current_proto_version (identity s)) in
      if greeted
      then elim hello [
        | none ↦ record { sent = own ∷ []; outcome = Outcome.failed HandshakeError.broken }
        | some h ↦ elim (nonce_of h) [
          | none ↦ record {
            sent = own ∷ [];
            outcome = Outcome.failed HandshakeError.unexpected_hello;
          }
          | some nonce ↦
              let key = answer s nonce in
              let auth = PacketMessage.auth (record { digest = key }) in
              if authed
              then record { sent = own ∷ auth ∷ []; outcome = on_ack key ack }
              else record { sent = own ∷ []; outcome = Outcome.failed HandshakeError.broken }
        ]
      ]
      else record { sent = []; outcome = Outcome.failed HandshakeError.broken }

  -- The message with which a visitor answers the challenge. The address is there in visitor mode.
  unfoldable pub visitor_auth : ClientServiceConfig → Text → Digest → VisitorAuth
  unfolding answer
  visitor_auth s bind_addr nonce = record {
    token_digest = answer s nonce;
    bind_addr = bind_addr;
    service_type = s.service_type;
  }

  -- `VisitorControlChannel::run`, up to the session key; the padding of its hello is an argument.
  unfoldable pub visitor_handshake :
      ClientServiceConfig
      → Text
      → Digest
      → Bool
      → Option Digest
      → Bool
      → Option VisitorAck
      → Option Auth
      → ClientShake
  unfolding visitor_auth
  visitor_handshake s bind_addr pad greeted nonce authed ack key =
      let own = PacketMessage.hello (Hello.visitor_hello current_proto_version pad) in
      if greeted
      then elim nonce [
        | none ↦ record { sent = own ∷ []; outcome = Outcome.failed HandshakeError.broken }
        | some n ↦
            if authed
            then record {
              sent = own ∷ PacketMessage.visitor_auth (visitor_auth s bind_addr n) ∷ [];
              outcome = on_visitor_ack ack key;
            }
            else record { sent = own ∷ []; outcome = Outcome.failed HandshakeError.broken }
      ]
      else record { sent = []; outcome = Outcome.failed HandshakeError.broken }
