-- ===== src/Server/Authentication.antt =====
-- Who gets a control channel.
use rathole_ng.Prelude.{
  ◌++◌, ℕ, ◌≡◌, refl, ap, ◌∙◌, true, false, Option, some, arith, Option-cases, inl, inr,
}
use rathole_ng.Collections.HashMap
use rathole_ng.Config.{Text, text_discrete, ServerServiceConfig}
use rathole_ng.Protocol.{Digest, Auth}
use rathole_ng.MultiMap.{MultiMap, key1}
use rathole_ng.MultiMap.Contents.{discard, entries, IsValid}
use rathole_ng.MultiMap.Refinement.{put, insert_refines, remove1_refines}
use rathole_ng.Server.{Server}
use rathole_ng.Server.Reload.{IsServer}
use rathole_ng.Server.Handshake.{session_key, token_text, establish, do_control_channel_handshake}

module _ {H : Type 0} (digest : Text → Digest) (handle_of : ServerServiceConfig → ℕ → H)
    (s : Server H) (v : IsServer s) where
  pub establish_lem :
      (cfg : ServerServiceConfig) (service_digest key : Digest)
      → let r = establish digest handle_of cfg service_digest key true s in
        (w : MultiMap Digest Digest H) × (r.accepted ≡ true)
        × (r.channels ≡ some w)
        × IsValid text_discrete text_discrete w
        × (entries w
            ≡ (put text_discrete text_discrete service_digest key
                (handle_of cfg s.config.heartbeat_interval)
                (discard text_discrete key1 service_digest (entries s.control_channels))).0)
  unfolding establish
  establish_lem cfg service_digest key =
      let handle = handle_of cfg s.config.heartbeat_interval in
      let (w, e, valid, same) =
        remove1_refines text_discrete text_discrete s.control_channels service_digest v in
      let (w', r, e', valid', same') =
        insert_refines text_discrete text_discrete w service_digest key handle valid in
      (
        w',
        rw (establish, e, e') refl,
        rw (establish, e, e') refl,
        valid',
        ap (λ x. x.0) same'
            ∙ ap (λ es. (put text_discrete text_discrete service_digest key handle es).0) same,
      )

  -- A client that gets a control channel named a service that exists and knew its token: it sent
  -- the digest of the token and of this handshake's nonce. The channel that the service
  -- had goes, and the new one is stored under the service and the session, unless another channel
  -- has this session; no other channel changes, and the channels stay in order.
  pub do_control_channel_handshake_accepts :
      (nonce service_digest : Digest) (auth : Option Auth)
      → (do_control_channel_handshake digest handle_of nonce service_digest auth true true
          s).accepted
        ≡ true
      → let r =
          do_control_channel_handshake digest handle_of nonce service_digest auth true true s in
        (cfg : ServerServiceConfig) × (w : MultiMap Digest Digest H) × (HashMap.get text_discrete
            service_digest s.services
          ≡ some cfg)
        × (auth ≡ some (record { digest = digest (token_text cfg.token ++ nonce) }))
        × (r.channels ≡ some w)
        × IsValid text_discrete text_discrete w
        × (entries w
            ≡ (put text_discrete text_discrete service_digest
                (digest (token_text cfg.token ++ nonce))
                (handle_of cfg s.config.heartbeat_interval)
                (discard text_discrete key1 service_digest (entries s.control_channels))).0)
  unfolding do_control_channel_handshake session_key
  do_control_channel_handshake_accepts nonce service_digest auth accepted =
      elim (Option-cases (HashMap.get text_discrete service_digest s.services)) [
        | inl e ↦ absurd (ground arith)
        | inr (cfg, e) ↦ elim (Option-cases auth) [
          | inl e2 ↦ absurd (ground arith)
          | inr (d, e2) ↦
              let key = session_key digest handle_of cfg nonce in
              elim (text_discrete key d.digest) [
                | no other ↦ absurd (ground arith)
                | yes same ↦
                    let (w, ok, channels, valid, now) = establish_lem cfg service_digest key in
                    (cfg, w, e, ground arith, ground arith, valid, now)
              ]
        ]
      ]

  -- A handshake that fails leaves the channels as they were, if all that is sent arrives.
  pub do_control_channel_handshake_refuses :
      (nonce service_digest : Digest) (auth : Option Auth)
      → (do_control_channel_handshake digest handle_of nonce service_digest auth true true
          s).accepted
        ≡ false
      → (do_control_channel_handshake digest handle_of nonce service_digest auth true true
          s).channels
        ≡ some s.control_channels
  unfolding do_control_channel_handshake
  do_control_channel_handshake_refuses nonce service_digest auth refused =
      elim (Option-cases (HashMap.get text_discrete service_digest s.services)) [
        | inl e ↦ ground arith
        | inr (cfg, e) ↦ elim (Option-cases auth) [
          | inl e2 ↦ ground arith
          | inr (d, e2) ↦
              let key = session_key digest handle_of cfg nonce in
              elim (text_discrete key d.digest) [
                | no other ↦ ground arith
                | yes same ↦ absurd (ground (arith, (establish_lem cfg service_digest key).1))
              ]
        ]
      ]
