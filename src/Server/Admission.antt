-- ===== src/Server/Admission.antt =====
-- Which visitors get a channel, and what they and the server learn.
use rathole_ng.Prelude.{
  ℕ, ◌≡◌, refl, true, Option, none, some, List, [], ◌∷◌, ◌++◌, arith, ◌⊎◌, inl, inr, Option-cases,
  Bool-cases,
}
use rathole_ng.Net.{SocketAddr, port}
use rathole_ng.Config.{Text, text_discrete, UserConfig, ServerServiceConfig}
use rathole_ng.Config.Ports.{is_port_allowed}
use rathole_ng.Protocol.{Digest, VisitorAuth, PacketMessage}
use rathole_ng.MultiMap.{MultiMap, get1, get2}
use rathole_ng.MultiMap.Contents.{IsValid}
use rathole_ng.MultiMap.Replacing.{replace_lem}
use rathole_ng.Server.{Server}
use rathole_ng.Server.Reload.{IsServer}
use rathole_ng.Server.Handshake.{token_text}
use rathole_ng.Server.Visitor.{
  answers, find_user, visitor_service, visitor_digest, establish_visitor, admit,
  do_visitor_channel_handshake,
}

-- One of the users.
abbrev pub IsUser : Text × UserConfig → List (Text × UserConfig) → Type 0
IsUser u [] = ⊥
IsUser u (v ∷ users) = (u ≡ v) ⊎ IsUser u users

module _ (digest : Text → Digest) where
  pub find_user_lem :
      (nonce token_digest : Digest) (users : List (Text × UserConfig)) (u : Text × UserConfig)
      → find_user digest nonce token_digest users ≡ some u
      → IsUser u users × (digest (token_text (u.1).token ++ nonce) ≡ token_digest)
  unfolding find_user answers
  find_user_lem nonce token_digest [] u e = absurd (ground arith)
  find_user_lem nonce token_digest (v ∷ users) u e =
      elim (text_discrete (digest (token_text (v.1).token ++ nonce)) token_digest) [
        | yes same ↦ let first : u ≡ v = ground arith in (inl first, ground arith)
        | no other ↦
            let rest = find_user_lem nonce token_digest users u (ground arith) in
            (inr rest.0, rest.1)
      ]

module _ {H : Type 0} (digest : Text → Digest) (handle_of : ServerServiceConfig → ℕ → H)
    (parse : Text → Option SocketAddr) (s : Server H) (v : IsServer s) where
  -- What a visitor's channel leaves in the map.
  abbrev pub HasVisitor :
      Text × UserConfig → VisitorAuth → Digest → Option (MultiMap Digest Digest H) → Type 0
  HasVisitor u auth session channels =
      let handle = handle_of (visitor_service digest u auth) s.config.heartbeat_interval in
      (w : MultiMap Digest Digest H) × (channels ≡ some w)
      × IsValid text_discrete text_discrete w
      × (get1 text_discrete text_discrete (visitor_digest digest u auth) w ≡ some (some handle))
      × (get2 text_discrete text_discrete session w ≡ some (some handle))

  pub establish_visitor_lem :
      (u : Text × UserConfig) (auth : VisitorAuth) (session : Digest) (sent : List PacketMessage)
      → get2 text_discrete text_discrete session s.control_channels ≡ some none
      → let r = establish_visitor digest handle_of u auth session sent s in
        (r.accepted ≡ true) × (r.sent ≡ sent) × HasVisitor u auth session r.channels
  unfolding establish_visitor
  establish_visitor_lem u auth session sent free =
      let handle = handle_of (visitor_service digest u auth) s.config.heartbeat_interval in
      let (a, b, old, e, e', vb, got1, got2, _) =
        replace_lem text_discrete text_discrete s.control_channels (visitor_digest digest u auth)
          session handle v free in
      (
        rw (establish_visitor, e, e') refl,
        rw (establish_visitor, e, e') refl,
        (b, rw (establish_visitor, e, e') refl, vb, got1, got2),
      )

  -- A visitor that gets a channel answered the challenge with the token of a user of the
  -- configuration, and asked for an address that parses and whose port this user may use. Its channel
  -- is found by its own digest and by the session that it was told, which is new.
  pub do_visitor_channel_handshake_accepts :
      (nonce session : Digest) (auth : Option VisitorAuth)
      → get2 text_discrete text_discrete session s.control_channels ≡ some none
      → (do_visitor_channel_handshake digest handle_of parse nonce session true auth true true
          s).accepted
        ≡ true
      → (a : VisitorAuth) × (u : Text × UserConfig) × (addr : SocketAddr) × (auth ≡ some a)
        × IsUser u s.config.users
        × (digest (token_text (u.1).token ++ nonce) ≡ a.token_digest)
        × (parse a.bind_addr ≡ some addr)
        × (is_port_allowed (u.1).allowed_ports (port addr) ≡ true)
        × HasVisitor u a session
            (do_visitor_channel_handshake digest handle_of parse nonce session true auth true true
              s).channels
  unfolding do_visitor_channel_handshake admit
  do_visitor_channel_handshake_accepts nonce session auth free accepted = elim (Option-cases auth) [
    | inl e ↦ absurd (ground arith)
    | inr (a, e) ↦ elim (Option-cases (find_user digest nonce a.token_digest s.config.users)) [
      | inl e2 ↦ absurd (ground arith)
      | inr (u, e2) ↦ elim (Option-cases (parse a.bind_addr)) [
        | inl e3 ↦ absurd (ground arith)
        | inr (addr, e3) ↦ elim (Bool-cases (is_port_allowed (u.1).allowed_ports (port addr))) [
          | inr e4 ↦ absurd (ground arith)
          | inl e4 ↦
              let (known, same) = find_user_lem digest nonce a.token_digest s.config.users u e2 in
              (
                a,
                u,
                addr,
                e,
                known,
                same,
                e3,
                e4,
                rw (e, e2, admit, e3, e4) (establish_visitor_lem u a session _ free).2,
              )
        ]
      ]
    ]
  ]
