-- ===== src/Client/Agreement.antt =====
-- src/client.rs and src/server.rs: the two sides of a handshake, with each other.
use rathole_ng.Prelude.{
  ℕ, ◌≡◌, refl, sym, subst, ap, ◌∙◌, true, false, ◌++◌, Option, none, some, List, [], ◌∷◌, arith,
  ite, inl, inr, Option-cases,
}
use rathole_ng.Collections.HashMap
use rathole_ng.Config.{Text, text_discrete, ClientServiceConfig, ServerServiceConfig}
use rathole_ng.Config.Validation.{default_user}
use rathole_ng.Protocol.{
  Digest, Hello, Ack, PacketMessage, current_proto_version, as_hello, as_ack, as_auth,
}
use rathole_ng.MultiMap.{MultiMap, get2}
use rathole_ng.MultiMap.Contents.{IsValid}
use rathole_ng.MultiMap.Replacing.{replace_lem}
use rathole_ng.Server.{Server}
use rathole_ng.Server.Reload.{IsServer}
use rathole_ng.Server.Handshake.{
  HandshakeResult, token_text, session_key, establish, do_control_channel_handshake,
  data_channel_handle,
}
use rathole_ng.Client.DataChannel.{data_hello}
use rathole_ng.Client.Handshake.{
  ClientShake, Outcome, HandshakeError, identity, answer, owner, token_bytes, on_ack, nonce_of,
  control_handshake,
}

-- What the other side makes of the first message of a kind.
abbrev pub first_of {ℓ} : {A : Type ℓ} → (PacketMessage → Option A) → List PacketMessage → Option A
first_of select [] = none
first_of select (m ∷ ms) = elim (select m) [ none ↦ first_of select ms | some a ↦ some a ]

abbrev pub control_id : Option Hello → Option Digest
control_id none = none
control_id (some (Hello.control_channel_hello _ d)) = some d
control_id (some (Hello.data_channel_hello _ _)) = none
control_id (some (Hello.visitor_hello _ _)) = none

abbrev pub data_nonce : Option Hello → Option Digest
data_nonce none = none
data_nonce (some (Hello.control_channel_hello _ _)) = none
data_nonce (some (Hello.data_channel_hello _ d)) = some d
data_nonce (some (Hello.visitor_hello _ _)) = none

-- A user's name, by the rule that no name stands for the default.
abbrev pub user_name : Option Text → Text
user_name none = default_user
user_name (some u) = u

module _ (digest : Text → Digest) where
  -- The digest of "user:name", under which a service is registered.
  abbrev pub registered_id : ClientServiceConfig → Digest
  registered_id c = digest (user_name c.user ++ 58 ∷ c.name)

  -- The digest of a token and a nonce, one behind the other.
  abbrev pub token_key : Option Text → Digest → Digest
  token_key t nonce = digest (token_text t ++ nonce)

  registered_id-identity : (c : ClientServiceConfig) → registered_id c ≡ identity digest c
  unfolding identity
  registered_id-identity c = ap (λ u. digest (u ++ 58 ∷ c.name)) (same c.user)
    where
      same : (u : Option Text) → user_name u ≡ owner u
      same none = refl
      same (some u) = refl

  pub token_key-answer :
      (c : ClientServiceConfig) (nonce : Digest) → token_key c.token nonce ≡ answer digest c nonce
  unfolding answer
  token_key-answer c nonce = ap (λ t. digest (t ++ nonce)) (same c.token)
    where
      same : (t : Option Text) → token_text t ≡ token_bytes t
      same none = refl
      same (some t) = refl

module _ {H : Type 0} (digest : Text → Digest) (handle_of : ServerServiceConfig → ℕ → H) where
  -- All that the client sends, where the server's nonce comes.
  abbrev pub client_sends : ClientServiceConfig → Digest → List PacketMessage
  client_sends c nonce =
      (control_handshake digest c true
        (some (Hello.control_channel_hello current_proto_version nonce)) true none).sent

  -- The server's part of a handshake, on what the client sends: without the hello of a control
  -- channel it does not come to one.
  abbrev pub server_side : ClientServiceConfig → Digest → Server H → HandshakeResult H
  server_side c nonce s = elim (control_id (first_of (λ m. as_hello m) (client_sends c nonce))) [
    | none ↦ record { sent = []; accepted = false; channels = some s.control_channels }
    | some d ↦
        do_control_channel_handshake digest handle_of nonce d
          (first_of as_auth (client_sends c nonce)) true true s
  ]

  -- The client's part of it.
  abbrev pub client_side : ClientServiceConfig → Digest → Server H → ClientShake
  client_side c nonce s =
      control_handshake digest c true
        (some (Hello.control_channel_hello current_proto_version nonce)) true
        (first_of as_ack (server_side c nonce s).sent)

  -- The handle that a data channel with the key comes to, by the hello that it sends.
  abbrev pub comes_to : Digest → Server H → Option (Option H)
  comes_to key s = elim (data_nonce (first_of (λ m. as_hello m) (data_hello key ∷ []))) [
    | none ↦ some none
    | some n ↦ data_channel_handle n s
  ]

  establish_replaces :
      (cfg : ServerServiceConfig) (d key : Digest) (s : Server H)
      → IsServer s
      → get2 text_discrete text_discrete key s.control_channels ≡ some none
      → let r = establish digest handle_of cfg d key true s in
        (w : MultiMap Digest Digest H) × (r.channels ≡ some w)
        × (r.sent ≡ PacketMessage.ack Ack.ok ∷ [])
        × IsValid text_discrete text_discrete w
        × (get2 text_discrete text_discrete key w
            ≡ some (some (handle_of cfg s.config.heartbeat_interval)))
  unfolding establish
  establish_replaces cfg d key s v free =
      let handle = handle_of cfg s.config.heartbeat_interval in
      let (a, b, old, e, e', vb, _, got, _) =
        replace_lem text_discrete text_discrete s.control_channels d key handle v free in
      (b, rw (establish, e, e') refl, rw (establish, e, e') refl, vb, got)

  accepts :
      (c : ClientServiceConfig) (cfg : ServerServiceConfig) (nonce : Digest) (s : Server H)
      → IsServer s
      → HashMap.get text_discrete (identity digest c) s.services ≡ some cfg
      → token_key digest cfg.token nonce ≡ answer digest c nonce
      → get2 text_discrete text_discrete (answer digest c nonce) s.control_channels ≡ some none
      → (w : MultiMap Digest Digest H) × ((server_side c nonce s).channels ≡ some w)
        × IsValid text_discrete text_discrete w
        × (comes_to (answer digest c nonce) (record s { control_channels = w })
            ≡ some (some (handle_of cfg s.config.heartbeat_interval)))
        × ((client_side c nonce s).outcome ≡ Outcome.established (answer digest c nonce))
  unfolding do_control_channel_handshake data_channel_handle control_handshake data_hello as_hello
      as_ack on_ack nonce_of as_auth session_key
  accepts c cfg nonce s v found same free =
      let key = answer digest c nonce in
      let (w, channels, sent, valid, got) =
        establish_replaces cfg (identity digest c) key s v free in
      (
        w,
        rw (do_control_channel_handshake, found, session_key, same) (ground (arith, channels)),
        valid,
        got,
        ground (arith, sent),
      )

  -- The service exists and the two sides have the same token, by its digest with the nonce, and no
  -- channel has this digest as its session key: the client is told so, both sides have one session
  -- key, and the hello of a data channel, which brings this key, gets to the service's handle.
  pub control_handshake_accepts :
      (c : ClientServiceConfig) (cfg : ServerServiceConfig) (nonce : Digest) (s : Server H)
      → IsServer s
      → HashMap.get text_discrete (registered_id digest c) s.services ≡ some cfg
      → token_key digest cfg.token nonce ≡ token_key digest c.token nonce
      → get2 text_discrete text_discrete (token_key digest c.token nonce) s.control_channels
        ≡ some none
      → (w : MultiMap Digest Digest H) × ((server_side c nonce s).channels ≡ some w)
        × IsValid text_discrete text_discrete w
        × (comes_to (token_key digest c.token nonce) (record s { control_channels = w })
            ≡ some (some (handle_of cfg s.config.heartbeat_interval)))
        × ((client_side c nonce s).outcome ≡ Outcome.established (token_key digest c.token nonce))
  control_handshake_accepts c cfg nonce s v found same free =
      let e = token_key-answer digest c nonce in
      let found' : HashMap.get text_discrete (identity digest c) s.services ≡ some cfg =
        subst (λ d. HashMap.get text_discrete d s.services ≡ some cfg)
          (registered_id-identity digest c) found in
      let free' : get2 text_discrete text_discrete (answer digest c nonce) s.control_channels
          ≡ some none =
        subst (λ k. get2 text_discrete text_discrete k s.control_channels ≡ some none) e free in
      let (w, channels, valid, got, out) = accepts c cfg nonce s v found' (same ∙ e) free' in
      (
        w,
        channels,
        valid,
        subst
            (λ k.
              comes_to k (record s { control_channels = w })
              ≡ some (some (handle_of cfg s.config.heartbeat_interval)))
            (sym e) got,
        out ∙ ap Outcome.established (sym e),
      )

  -- What there is to learn, by the service that is registered and the token of the client.
  abbrev pub learned : Option Text → Digest → Option ServerServiceConfig → Outcome
  learned token nonce none = Outcome.failed (HandshakeError.refused Ack.service_not_exist)
  learned token nonce (some cfg) =
      ite (text_discrete (token_key digest cfg.token nonce) (token_key digest token nonce))
        (Outcome.established (token_key digest token nonce))
        (Outcome.failed (HandshakeError.refused Ack.auth_failed))

  -- What the client learns from a handshake in which every message arrives and no channel has the
  -- key yet: no service is registered for its user and name, or one is with a token that gives
  -- another digest with the nonce, or the channel stands, with the digest as its session key.
  pub control_handshake_outcome :
      (c : ClientServiceConfig) (nonce : Digest) (s : Server H)
      → IsServer s
      → get2 text_discrete text_discrete (token_key digest c.token nonce) s.control_channels
        ≡ some none
      → (client_side c nonce s).outcome
        ≡ learned c.token nonce (HashMap.get text_discrete (registered_id digest c) s.services)
  unfolding do_control_channel_handshake control_handshake as_ack on_ack nonce_of as_auth as_hello
      session_key
  control_handshake_outcome c nonce s v free =
      let id = registered_id-identity digest c in
      let e = token_key-answer digest c nonce in
      elim (Option-cases (HashMap.get text_discrete (registered_id digest c) s.services)) [
        | inl none_there ↦ ground (arith, id, e)
        | inr (cfg, there) ↦
            elim (text_discrete (token_key digest cfg.token nonce)
              (token_key digest c.token nonce)) [
                | no other ↦ ground (arith, id, e)
                | yes same ↦
                    let (w, _, _, _, out) =
                      control_handshake_accepts c cfg nonce s v there same free in
                    ground (arith, out)
              ]
      ]
