-- ===== src/Transport/Noise/Choice.antt =====
-- Which transport a configuration gives, and what becomes of its pre-shared key.
use rathole_ng.Prelude.{
  ℕ, ◌≡◌, Bool, true, ◌&&◌, Option, none, some, List, ◌==◌, arith, length, inl, inr, Option-cases,
  Bool-cases,
}
use rathole_ng.Config.{Text, NoiseConfig, TransportConfig}
use rathole_ng.Config.Validation.{is_set, validate_transport_type, validate_transport_config}
use rathole_ng.Config.Acceptance.{is_ok}
use rathole_ng.Transport.Noise.{
  Underlying, Chosen, HandshakeSettings, underlying_new, tcp_new, udp_new, decode_key, over,
  noise_new, given_psk, choose, handshake_settings,
}

module _ {P : Type 0} (sha256 : Text → List ℕ) (decode : Text → Option (List ℕ))
    (parse : Text → Option P) where
  -- A configuration has no noise part, or one whose pattern parses and whose remote key, if it has
  -- one, is base64.
  abbrev pub noise_works : Option NoiseConfig → Bool
  noise_works none = true
  noise_works (some n) =
      is_set (decode_key sha256 decode parse n.remote_public_key) && is_set (parse n.pattern)

  underlying-validate :
      (scheme : Text → Text) (config : TransportConfig)
      → is_ok (validate_transport_config scheme config) ≡ true
      → (u : Underlying) × (underlying_new sha256 decode parse config.transport_type config
          ≡ some u)
  unfolding validate_transport_config validate_transport_type underlying_new tcp_new udp_new
  underlying-validate scheme config h =
      elim (Option-cases (underlying_new sha256 decode parse config.transport_type config)) [
        | inr found ↦ found
        | inl e ↦ absurd (ground arith)
      ]

  -- A transport configuration that passes gives a transport exactly when the noise part, if there is
  -- one, has a pattern that parses and a remote key, if any, that is base64.
  pub choose-validate_transport_config :
      (scheme : Text → Text) (config : TransportConfig)
      → is_ok (validate_transport_config scheme config) ≡ true
      → is_set (choose sha256 decode parse config) ≡ noise_works config.noise
  unfolding choose noise_new over
  choose-validate_transport_config scheme config h =
      let (u, e) = underlying-validate scheme config h in ground arith

  -- What a handshake over the chosen transport is set up with, for a noise part.
  abbrev pub settings_of : Option (List ℕ) → Bool → Option (Chosen P) → Option (HandshakeSettings P)
  settings_of generated initiator none = none
  settings_of generated initiator (some (Chosen.plain u)) = none
  settings_of generated initiator (some (Chosen.noise t)) =
      handshake_settings sha256 decode parse generated initiator t

  abbrev without_psk : NoiseConfig → NoiseConfig
  without_psk n = record n { psk = none }

  -- The key that a text stands for: base64 of 32 bytes.
  abbrev pub IsPsk : Text → List ℕ → Type 0
  IsPsk text bytes = (decode text ≡ some bytes) × (length bytes ≡ 32)

  -- A pre-shared key that is base64 of 32 bytes is the one of every handshake.
  pub psk_is_used :
      (config : TransportConfig) (n : NoiseConfig) (text : Text) (bytes : List ℕ)
      (generated : Option (List ℕ)) (initiator : Bool) (s : HandshakeSettings P)
      → config.noise ≡ some n
      → n.psk ≡ some text
      → IsPsk text bytes
      → settings_of generated initiator (choose sha256 decode parse config) ≡ some s
      → s.psk ≡ some bytes
  unfolding choose underlying_new tcp_new udp_new noise_new over given_psk handshake_settings
  psk_is_used config n text bytes generated initiator s e k key found = ground arith

  -- A pre-shared key that is not base64 of 32 bytes is dropped without an error: each handshake is
  -- set up as for the same configuration with none.
  pub malformed_psk_is_dropped :
      (config : TransportConfig) (n : NoiseConfig) (text : Text) (generated : Option (List ℕ))
      (initiator : Bool)
      → config.noise ≡ some n
      → n.psk ≡ some text
      → ((bytes : List ℕ) → ¬ IsPsk text bytes)
      → settings_of generated initiator (choose sha256 decode parse config)
        ≡ settings_of generated initiator
            (choose sha256 decode parse (record config { noise = some (without_psk n) }))
  unfolding choose underlying_new tcp_new udp_new noise_new over given_psk handshake_settings
  malformed_psk_is_dropped config n text generated initiator e k no_key =
      elim (Option-cases (decode text)) [
        | inl x ↦ ground arith
        | inr (bytes, x) ↦ elim (Bool-cases (length bytes == 32)) [
          | inl y ↦ absurd (no_key bytes (x, ground arith))
          | inr y ↦ ground arith
        ]
      ]
