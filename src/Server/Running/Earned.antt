-- ===== src/Server/Running/Earned.antt =====
-- Which channels of a running server are earned, and that the handshakes store only such.
use rathole_ng.Prelude.{
  ◌++◌, ℕ, ◌≡◌, ◌⊎◌, refl, sym, subst, ap, Bool, true, false, Option, some, List, Option-cases,
  Bool-cases, inl, inr, Every, Among,
}
use rathole_ng.Net.{SocketAddr, port}
use rathole_ng.Config.{Text, text_discrete, UserConfig, ServerServiceConfig, ServerConfig}
use rathole_ng.Config.Ports.{is_port_allowed}
use rathole_ng.Protocol.{Digest, VisitorAuth, PacketMessage}
use rathole_ng.MultiMap.{MultiMap, remove1, insert}
use rathole_ng.MultiMap.Contents.{entries, IsValid}
use rathole_ng.MultiMap.Refinement.{insert_refines, remove1_refines}
use rathole_ng.Watcher.{ServiceChange, ConfigChange}
use rathole_ng.Server.{Server, service_digest}
use rathole_ng.Server.Handshake.{token_text, establish}
use rathole_ng.Server.Visitor.{
  find_user, admit, visitor_service, visitor_digest, establish_visitor,
  do_visitor_channel_handshake,
}
use rathole_ng.Server.Admission.{IsUser, find_user_lem}
use rathole_ng.Server.Reload.{IsServer}
use rathole_ng.Server.Running.Kept.{Every-discard, Every-put}
use rathole_ng.Server.Running.{Pending, Running, ServerEvent}

module _ {H : Type 0} (digest : Text → Digest) (handle_of : ServerServiceConfig → ℕ → H)
    (parse : Text → Option SocketAddr) (config : ServerConfig)
    (Happened : ServerEvent → Type 0) where
  -- A service of the configuration that the server started with, or one that a hot reload added.
  abbrev pub IsOffered : Digest → ServerServiceConfig → Type 0
  IsOffered k cfg =
      (k ≡ service_digest digest cfg cfg.name)
      × (Among (cfg.name, cfg) config.services
          ⊎ Happened (ServerEvent.update (ConfigChange.server_change (ServiceChange.add cfg))))

  -- On one connection, the server sent a nonce for the service, and was then sent the digest of the
  -- service's token with this nonce.
  abbrev pub IsControl : Digest × Digest × H → Type 0
  IsControl e =
      (cfg : ServerServiceConfig) × (nonce : Digest) × (id : ℕ) × IsOffered e.0 cfg
      × Happened (ServerEvent.control_hello id nonce e.0)
      × Happened (ServerEvent.control_auth id e.1 true)
      × (e.1 ≡ digest (token_text cfg.token ++ nonce))
      × (e.2 ≡ handle_of cfg config.heartbeat_interval)

  -- A visitor was sent a nonce, answered with the digest of a user's token with it, and asked for an
  -- address whose port this user may use.
  abbrev pub IsVisitor : Digest × Digest × H → Type 0
  IsVisitor e =
      (u : Text × UserConfig) × (auth : VisitorAuth) × (nonce : Digest) × (addr : SocketAddr)
      × IsUser u config.users
      × Happened (ServerEvent.visitor nonce e.1 auth true true)
      × (digest (token_text (u.1).token ++ nonce) ≡ auth.token_digest)
      × (parse auth.bind_addr ≡ some addr)
      × (is_port_allowed (u.1).allowed_ports (port addr) ≡ true)
      × (e.0 ≡ visitor_digest digest u auth)
      × (e.2 ≡ handle_of (visitor_service digest u auth) config.heartbeat_interval)

  abbrev pub IsEarned : Digest × Digest × H → Type 0
  IsEarned e = IsControl e ⊎ IsVisitor e

  -- A data channel went to the handle of a channel whose key it brought.
  abbrev pub IsGiven : Digest × H → Type 0
  IsGiven x = (k : Digest) × IsEarned (k, x.0, x.1)

  abbrev pub IsPending : ℕ × Pending → Type 0
  IsPending x =
      Happened (ServerEvent.control_hello x.0 (x.1).nonce (x.1).service_digest)
      × IsOffered (x.1).service_digest (x.1).service_config

  -- The map of channels is in order, and what the server keeps has its reason in what happened.
  pub record IsRunning (r : Running H) : Type 0 where
    pub valid : IsServer r.server
    pub same_config : r.server.config ≡ config
    pub offered : Every (λ x. IsOffered x.0 x.1) r.server.services
    pub pending : Every IsPending r.handshakes
    pub earned : Every IsEarned (entries r.server.control_channels)
    pub given : Every IsGiven r.data_channels

  -- Channels that are in order and earned.
  abbrev pub Good : Option (MultiMap Digest Digest H) → Type 0
  Good c =
      (w : MultiMap Digest Digest H) × (c ≡ some w)
      × IsValid text_discrete text_discrete w
      × Every IsEarned (entries w)

  replaced :
      (w : MultiMap Digest Digest H) (k1 k2 : Digest) (h : H)
      → IsValid text_discrete text_discrete w
      → Every IsEarned (entries w)
      → IsEarned (k1, k2, h)
      → (a b : MultiMap Digest Digest H) × (x : Option H) × (y : _) × (remove1 text_discrete
            text_discrete k1 w
          ≡ some (a, x))
        × (insert text_discrete text_discrete k1 k2 h a ≡ some (b, y))
        × IsValid text_discrete text_discrete a
        × IsValid text_discrete text_discrete b
        × Every IsEarned (entries a)
        × Every IsEarned (entries b)
  replaced w k1 k2 h v all new =
      let (a, e, va, same) = remove1_refines text_discrete text_discrete w k1 v in
      let (b, y, e', vb, same') = insert_refines text_discrete text_discrete a k1 k2 h va in
      let left : Every IsEarned (entries a) =
        subst (Every IsEarned) (sym same)
          (Every-discard text_discrete text_discrete IsEarned k1 (entries w) all) in
      (
        a,
        b,
        _,
        y,
        e,
        e',
        va,
        vb,
        left,
        subst (Every IsEarned) (sym (ap (λ x. x.0) same'))
            (Every-put text_discrete text_discrete IsEarned k1 k2 h (entries a) new left),
      )

  pub establish-Good :
      (s : Server H) (cfg : ServerServiceConfig) (d key : Digest) (acked : Bool)
      → IsServer s
      → Every IsEarned (entries s.control_channels)
      → (acked ≡ true → IsEarned (d, key, handle_of cfg s.config.heartbeat_interval))
      → Good (establish digest handle_of cfg d key acked s).channels
  unfolding establish
  establish-Good s cfg d key true v all new =
      let (a, b, x, y, e, e', va, vb, la, lb) =
        replaced s.control_channels d key (handle_of cfg s.config.heartbeat_interval) v all
          (new refl) in
      (b, rw (establish, e, e') refl, vb, lb)
  establish-Good s cfg d key false v all new =
      let (w, e, valid, same) =
        remove1_refines text_discrete text_discrete s.control_channels d v in
      (
        w,
        rw (establish, e) refl,
        valid,
        subst (Every IsEarned) (sym same)
            (Every-discard text_discrete text_discrete IsEarned d (entries s.control_channels) all),
      )

  establish_visitor-Good :
      (s : Server H) (u : Text × UserConfig) (auth : VisitorAuth) (session : Digest)
      (sent : List PacketMessage)
      → IsServer s
      → Every IsEarned (entries s.control_channels)
      → IsEarned (
        visitor_digest digest u auth,
        session,
        handle_of (visitor_service digest u auth) s.config.heartbeat_interval,
      )
      → Good (establish_visitor digest handle_of u auth session sent s).channels
  unfolding establish_visitor
  establish_visitor-Good s u auth session sent v all new =
      let handle = handle_of (visitor_service digest u auth) s.config.heartbeat_interval in
      let (a, b, x, y, e, e', va, vb, la, lb) =
        replaced s.control_channels (visitor_digest digest u auth) session handle v all new in
      (b, rw (establish_visitor, e, e') refl, vb, lb)

  -- The user is known: what remains is the address, its port, and the two messages.
  admit-Good :
      (s : Server H) (u : Text × UserConfig) (nonce session : Digest) (auth : VisitorAuth)
      (acked keyed : Bool)
      → IsServer s
      → s.config ≡ config
      → Every IsEarned (entries s.control_channels)
      → Happened (ServerEvent.visitor nonce session auth acked keyed)
      → IsUser u config.users
      → digest (token_text (u.1).token ++ nonce) ≡ auth.token_digest
      → Good (admit digest handle_of parse u auth session acked keyed s).channels
  unfolding admit
  admit-Good s u nonce session auth acked keyed v c all here known same =
      let kept : Good (some s.control_channels) = (s.control_channels, refl, v, all) in
      elim (Option-cases (parse auth.bind_addr)) [
        | inl e ↦ rw (admit, e) kept
        | inr (addr, e) ↦ elim (Bool-cases (is_port_allowed (u.1).allowed_ports (port addr))) [
          | inr e2 ↦ rw (admit, e, e2) kept
          | inl e2 ↦ elim (Bool-cases acked) [
            | inr e3 ↦ rw (admit, e, e2, e3) kept
            | inl e3 ↦ elim (Bool-cases keyed) [
              | inr e4 ↦ rw (admit, e, e2, e3, e4) kept
              | inl e4 ↦
                  let at : Happened (ServerEvent.visitor nonce session auth true true) =
                    subst (λ a. Happened (ServerEvent.visitor nonce session auth a true)) e3
                      (subst (λ k. Happened (ServerEvent.visitor nonce session auth acked k)) e4
                        here) in
                  let new : IsVisitor (
                    visitor_digest digest u auth,
                    session,
                    handle_of (visitor_service digest u auth) s.config.heartbeat_interval,
                  ) =
                    (
                      u,
                      auth,
                      nonce,
                      addr,
                      known,
                      at,
                      same,
                      e,
                      e2,
                      refl,
                      ap (λ k. handle_of (visitor_service digest u auth) k.heartbeat_interval) c,
                    ) in
                  rw (admit, e, e2, e3, e4)
                    (establish_visitor-Good s u auth session _ v all (inr new))
            ]
          ]
        ]
      ]

  pub visitor-Good :
      (s : Server H) (nonce session : Digest) (auth : VisitorAuth) (acked keyed : Bool)
      → IsServer s
      → s.config ≡ config
      → Every IsEarned (entries s.control_channels)
      → Happened (ServerEvent.visitor nonce session auth acked keyed)
      → Good
          (do_visitor_channel_handshake digest handle_of parse nonce session true
            (some auth)
            acked
            keyed
            s).channels
  unfolding do_visitor_channel_handshake
  visitor-Good s nonce session auth acked keyed v c all here =
      elim (Option-cases (find_user digest nonce auth.token_digest s.config.users)) [
        | inl e ↦ rw (do_visitor_channel_handshake, e) (s.control_channels, refl, v, all)
        | inr (u, e) ↦
            let (known, same) = find_user_lem digest nonce auth.token_digest s.config.users u e in
            rw (do_visitor_channel_handshake, e)
              (admit-Good s u nonce session auth acked keyed v c all here
                (subst (λ k. IsUser u k.users) c known) same)
      ]
