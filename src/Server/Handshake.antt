-- ===== src/Server/Handshake.antt =====
-- src/server.rs: the handshakes of a control channel and of a data channel.
-- The nonce, what is read from the client, and whether a message could be sent are arguments. A
-- handle is made from the service and the heartbeat interval.
use rathole_ng.Prelude.{
  ℕ, Bool, true, false, Option, none, some, List, [], ◌∷◌, ◌++◌, ite, if◌then◌else◌,
}
use rathole_ng.Collections.HashMap
use rathole_ng.Config.{Text, text_discrete, ServerServiceConfig}
use rathole_ng.Protocol.{Digest, Hello, Auth, Ack, PacketMessage, current_proto_version}
use rathole_ng.MultiMap.{MultiMap, get2, remove1}
use rathole_ng.MultiMap
use rathole_ng.Server.{Server}

-- What was sent, whether the handshake succeeded, and the channels after it, `none` for a fault.
pub record HandshakeResult (H : Type 0) : Type 0 where
  pub sent : List PacketMessage
  pub accepted : Bool
  pub channels : Option (MultiMap Digest Digest H)

-- `unwrap_or(b"")`
abbrev pub token_text : Option Text → Text
token_text none = []
token_text (some t) = t

module _ {H : Type 0} (digest : Text → Digest) (handle_of : ServerServiceConfig → ℕ → H) where
  -- `digest(token + nonce)`
  unfoldable pub session_key : ServerServiceConfig → Digest → Digest
  session_key cfg nonce = digest (token_text cfg.token ++ nonce)

  -- The end of an authentication that succeeds: the old channel is dropped, the acknowledgement is
  -- sent, and the new channel is stored.
  unfoldable pub establish :
      ServerServiceConfig → Digest → Digest → Bool → Server H → HandshakeResult H
  establish cfg service_digest key acked s =
      let sent = PacketMessage.ack Ack.ok ∷ [] in
      elim (remove1 text_discrete text_discrete service_digest s.control_channels) [
        | none ↦ record { sent = []; accepted = false; channels = none }
        | some (w, _) ↦
            let handle = handle_of cfg s.config.heartbeat_interval in
            if acked
            then elim (MultiMap.insert text_discrete text_discrete service_digest key handle w) [
              | none ↦ record { sent = sent; accepted = false; channels = none }
              | some (w', _) ↦ record { sent = sent; accepted = true; channels = some w' }
            ]
            else record { sent = []; accepted = false; channels = some w }
      ]

  unfoldable pub do_control_channel_handshake :
      Digest → Digest → Option Auth → Bool → Bool → Server H → HandshakeResult H
  unfolding session_key establish
  do_control_channel_handshake nonce service_digest auth greeted acked s =
      let hello = PacketMessage.hello (Hello.control_channel_hello current_proto_version nonce) in
      let refused : List PacketMessage → HandshakeResult H =
        λ sent. record { sent = sent; accepted = false; channels = some s.control_channels } in
      if greeted
      then elim (HashMap.get text_discrete service_digest s.services) [
        | none ↦ refused (hello ∷ PacketMessage.ack Ack.service_not_exist ∷ [])
        | some cfg ↦ elim auth [
          | none ↦ refused (hello ∷ [])
          | some d ↦
              let key = session_key cfg nonce in
              let done = establish cfg service_digest key acked s in
              ite (text_discrete key d.digest)
                (record {
                  sent = hello ∷ done.sent;
                  accepted = done.accepted;
                  channels = done.channels;
                })
                (refused (hello ∷ PacketMessage.ack Ack.auth_failed ∷ []))
        ]
      ]
      else refused []

-- The lookup of `do_data_channel_handshake`: the handle that gets the data channel, `none` for an
-- incorrect nonce. The options of the socket, the mode and the send to the handle's task are not
-- modelled.
unfoldable pub data_channel_handle : {H : Type 0} → Digest → Server H → Option (Option H)
data_channel_handle nonce s = get2 text_discrete text_discrete nonce s.control_channels
