-- ===== src/Server/Running/Serving.antt =====
-- Every event keeps the channels of a running server earned.
use rathole_ng.Prelude.{
  ℕ, ◌≡◌, refl, sym, subst, ap, ◌∙◌, Bool, true, Option, some, List, [], ◌∷◌, if_pos, arith,
  Option-cases, inl, inr, ℕ_discrete, Every,
}
use rathole_ng.Collections.HashMap
use rathole_ng.Net.{SocketAddr}
use rathole_ng.Config.{Text, text_discrete, ServerServiceConfig, ServerConfig}
use rathole_ng.Protocol.{Digest}
use rathole_ng.MultiMap.{MultiMap, key2}
use rathole_ng.MultiMap.Contents.{look, entries, IsValid}
use rathole_ng.MultiMap.Refinement.{remove1_refines, get_refines}
use rathole_ng.Watcher.{ServiceChange, ConfigChange}
use rathole_ng.Server.{Server, service_digest, drop_channel, handle_hot_reload, hash_to_remove}
use rathole_ng.Server.Handshake.{session_key, establish, data_channel_handle}
use rathole_ng.Server.Running.Kept.{
  Every-discard, Every-look, Every-insert, Every-remove, Every-get,
}
use rathole_ng.Server.Running.Earned.{
  IsOffered, IsEarned, IsPending, IsRunning, Good, establish-Good, visitor-Good,
}
use rathole_ng.Server.Running.{
  Pending, Running, ServerEvent, authenticate, serve_event, serve, begin_handshake, end_handshake,
  give_data_channel, with_channels, with_server,
}

module _ {H : Type 0} (digest : Text → Digest) (handle_of : ServerServiceConfig → ℕ → H)
    (parse : Text → Option SocketAddr) (config : ServerConfig)
    (Happened : ServerEvent → Type 0) where
  abbrev pub Inv : Running H → Type 0
  Inv r = IsRunning digest handle_of parse config Happened r

  abbrev pub AreOffered : List (Digest × ServerServiceConfig) → Type 0
  AreOffered m = Every (λ x. IsOffered digest handle_of parse config Happened x.0 x.1) m

  -- What an event makes of a server, if there is no fault.
  abbrev pub Serves : Option (Running H) → Type 0
  Serves o = (r : Running H) × (o ≡ some r) × Inv r

  with_channels-Serves :
      (c : Option (MultiMap Digest Digest H)) (r : Running H)
      → Good digest handle_of parse config Happened c
      → Inv r
      → Serves (with_channels c r)
  with_channels-Serves c r (w, e, valid, all) h = (
    record r { server = (let s = r.server in record s { control_channels = w }) },
    rw e refl,
    record {
      valid = valid;
      same_config = h.same_config;
      offered = h.offered;
      pending = h.pending;
      earned = all;
      given = h.given;
    },
  )

  begin_handshake-Inv :
      (id : ℕ) (nonce d : Digest) (r : Running H)
      → Happened (ServerEvent.control_hello id nonce d)
      → Inv r
      → Inv (begin_handshake id nonce d r)
  unfolding begin_handshake
  begin_handshake-Inv id nonce d r here h =
      elim (Option-cases (HashMap.get text_discrete d r.server.services)) [
        | inl e ↦ rw (begin_handshake, e) h
        | inr (cfg, e) ↦
            let p : Pending = record { service_digest = d; service_config = cfg; nonce = nonce } in
            let offer =
              Every-get text_discrete
                (λ x. IsOffered digest handle_of parse config Happened x.0 x.1) d cfg
                r.server.services e h.offered in
            rw (begin_handshake, e)
              (record {
                valid = h.valid;
                same_config = h.same_config;
                offered = h.offered;
                pending =
                    Every-insert ℕ_discrete (IsPending digest handle_of parse config Happened) id p
                      r.handshakes (here, offer) h.pending;
                earned = h.earned;
                given = h.given;
              })
      ]

  end_handshake-Inv : (id : ℕ) (r : Running H) → Inv r → Inv (end_handshake id r)
  unfolding end_handshake
  end_handshake-Inv id r h = record {
    valid = h.valid;
    same_config = h.same_config;
    offered = h.offered;
    pending =
        Every-remove ℕ_discrete (IsPending digest handle_of parse config Happened) id r.handshakes
          h.pending;
    earned = h.earned;
    given = h.given;
  }

  authenticate-Serves :
      (id : ℕ) (d : Digest) (acked : Bool) (r : Running H)
      → Happened (ServerEvent.control_auth id d acked)
      → Inv r
      → Serves (authenticate digest handle_of parse id d acked r)
  unfolding authenticate session_key
  authenticate-Serves id d acked r here h =
      elim (Option-cases (HashMap.get ℕ_discrete id r.handshakes)) [
        | inl e ↦ rw (authenticate, e) (r, refl, h)
        | inr (p, e) ↦
            let key = session_key digest handle_of p.service_config p.nonce in
            let r' = end_handshake id r in
            let h' = end_handshake-Inv id r h in
            elim (text_discrete key d) [
              | no other ↦ (r', ground arith, h')
              | yes same ↦
                  let (sent, offer) =
                    Every-get ℕ_discrete (IsPending digest handle_of parse config Happened) id p
                      r.handshakes e h.pending in
                  let done =
                    establish digest handle_of p.service_config p.service_digest key acked
                      r.server in
                  let good : Good digest handle_of parse config Happened done.channels =
                    establish-Good digest handle_of parse config Happened r.server p.service_config
                      p.service_digest key acked h.valid h.earned
                      λ t. inl (
                        p.service_config,
                        p.nonce,
                        id,
                        offer,
                        sent,
                        subst (λ k. Happened (ServerEvent.control_auth id k true)) (sym same)
                            (subst (λ a. Happened (ServerEvent.control_auth id d a)) t here),
                        refl,
                        ap (λ c. handle_of p.service_config c.heartbeat_interval) h.same_config,
                      ) in
                  let now : authenticate digest handle_of parse id d acked r
                      ≡ with_channels done.channels r' =
                    rw (authenticate, e) (if_pos (text_discrete key d) same _ _) in
                  subst Serves (sym now) (with_channels-Serves done.channels r' good h')
            ]
      ]

  drop_channel-Serves :
      (hash : Digest) (m : List (Digest × ServerServiceConfig)) (s : Server H)
      → AreOffered m
      → IsValid text_discrete text_discrete s.control_channels
      → Every (IsEarned digest handle_of parse config Happened) (entries s.control_channels)
      → (s' : Server H) × (drop_channel hash m s ≡ some s')
        × (s'.services ≡ m)
        × (s'.config ≡ s.config)
        × IsValid text_discrete text_discrete s'.control_channels
        × Every (IsEarned digest handle_of parse config Happened) (entries s'.control_channels)
  unfolding drop_channel
  drop_channel-Serves hash m s o v all =
      let (w, e, valid, same) =
        remove1_refines text_discrete text_discrete s.control_channels hash v in
      (
        record s { services = m; control_channels = w },
        rw (drop_channel, e) refl,
        refl,
        refl,
        valid,
        subst (Every (IsEarned digest handle_of parse config Happened)) (sym same) (
            Every-discard text_discrete text_discrete
              (IsEarned digest handle_of parse config Happened) hash (entries s.control_channels)
              all),
      )

  -- A change that leaves the services offered and goes through `drop_channel`.
  dropped-Serves :
      (hash : Digest) (m : List (Digest × ServerServiceConfig)) (r : Running H)
      → AreOffered m
      → Inv r
      → Serves (with_server (drop_channel hash m r.server) r)
  dropped-Serves hash m r o h =
      let (s, e, same, c, valid, all) = drop_channel-Serves hash m r.server o h.valid h.earned in
      (
        record r { server = s },
        rw e refl,
        record {
          valid = valid;
          same_config = c ∙ h.same_config;
          offered = subst AreOffered (sym same) o;
          pending = h.pending;
          earned = all;
          given = h.given;
        },
      )

  update-Serves :
      (change : ConfigChange) (r : Running H)
      → Happened (ServerEvent.update change)
      → Inv r
      → Serves (with_server (handle_hot_reload digest change r.server) r)
  unfolding handle_hot_reload
  update-Serves (ConfigChange.general c) r here h = (r, refl, h)
  update-Serves (ConfigChange.client_change c) r here h = (r, refl, h)
  update-Serves (ConfigChange.server_change (ServiceChange.add cfg)) r here h =
      let hash = service_digest digest cfg cfg.name in
      let P : Digest × ServerServiceConfig → Type 0 =
        λ x. IsOffered digest handle_of parse config Happened x.0 x.1 in
      dropped-Serves hash (HashMap.insert text_discrete hash cfg r.server.services) r
        (Every-insert text_discrete P hash cfg r.server.services (refl, inr here) h.offered) h
  update-Serves (ConfigChange.server_change (ServiceChange.delete name)) r here h =
      let P : Digest × ServerServiceConfig → Type 0 =
        λ x. IsOffered digest handle_of parse config Happened x.0 x.1 in
      elim (Option-cases (hash_to_remove name r.server.services)) [
        | inl e ↦ rw (handle_hot_reload, e) (r, refl, h)
        | inr (hash, e) ↦
            rw (handle_hot_reload, e)
              (dropped-Serves hash (HashMap.remove text_discrete hash r.server.services) r
                (Every-remove text_discrete P hash r.server.services h.offered) h)
      ]

  give_data_channel-Serves :
      (nonce : Digest) (r : Running H) → Inv r → Serves (give_data_channel nonce r)
  unfolding give_data_channel data_channel_handle
  give_data_channel-Serves nonce r h =
      let es = entries r.server.control_channels in
      let (_, found) =
        get_refines text_discrete text_discrete r.server.control_channels nonce nonce h.valid in
      elim (Option-cases (look text_discrete key2 nonce es)) [
        | inl e ↦ (r, rw (give_data_channel, found, e) refl, h)
        | inr (x, e) ↦
            let (earned, same) =
              Every-look text_discrete key2 (IsEarned digest handle_of parse config Happened) nonce
                x es e h.earned in
            (
              record r { data_channels = (nonce, x.2) ∷ r.data_channels },
              rw (give_data_channel, found, e) refl,
              record {
                valid = h.valid;
                same_config = h.same_config;
                offered = h.offered;
                pending = h.pending;
                earned = h.earned;
                given = ((x.0, rw (sym same) earned), h.given);
              },
            )
      ]

  serve_event-Serves :
      (e : ServerEvent) (r : Running H)
      → Happened e
      → Inv r
      → Serves (serve_event digest handle_of parse e r)
  unfolding serve_event
  serve_event-Serves (ServerEvent.control_hello id nonce d) r here h =
      (begin_handshake id nonce d r, refl, begin_handshake-Inv id nonce d r here h)
  serve_event-Serves (ServerEvent.control_auth id d acked) r here h =
      authenticate-Serves id d acked r here h
  serve_event-Serves (ServerEvent.gone id) r here h =
      (end_handshake id r, refl, end_handshake-Inv id r h)
  serve_event-Serves (ServerEvent.data_hello nonce) r here h = give_data_channel-Serves nonce r h
  serve_event-Serves (ServerEvent.visitor nonce session auth acked keyed) r here h =
      with_channels-Serves _ r
        (visitor-Good digest handle_of parse config Happened r.server nonce session auth acked keyed
          h.valid h.same_config h.earned here)
        h
  serve_event-Serves (ServerEvent.update change) r here h = update-Serves change r here h

  pub serve-Serves :
      (es : List ServerEvent) (r : Running H)
      → Every Happened es
      → Inv r
      → Serves (serve digest handle_of parse es r)
  unfolding serve
  serve-Serves [] r here h = (r, refl, h)
  serve-Serves (e ∷ es) r here h =
      let (r', now, h') = serve_event-Serves e r here.0 h in
      rw (serve, now) (serve-Serves es r' here.1 h')
