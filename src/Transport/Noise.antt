-- ===== src/Transport/Noise.antt =====
-- src/transport/noise.rs, and the choice of the transport in `run_client` and `run_server`
-- (src/client.rs, src/server.rs), which is the same in both.
-- The digest of a text, the decoder of base64, the parser of a pattern and a generated key are
-- arguments. The handshake itself is of the package for Noise; what it is given is modelled.
pub mod Choice
mod Tests
use rathole_ng.Prelude.{ℕ, Bool, Option, none, some, List, ◌==◌, if◌then◌else◌, length}
use rathole_ng.Config.{Text, TransportType, NoiseConfig, TcpConfig, TransportConfig}
use rathole_ng.Helper.{SocketOpts, from_cfg}

-- `TcpTransport`, and `UdpTransport` by the key of its cipher.
pub data Underlying : Type 0 where
  tcp : SocketOpts → TcpConfig → Underlying
  udp : List ℕ → Underlying

pub record NoiseTransport (P : Type 0) : Type 0 where
  pub underlying : Underlying
  pub config : NoiseConfig
  pub params : P
  pub remote_public_key : Option (List ℕ)
  pub psk : Option (List ℕ)

-- The four transports that a client or a server runs over.
pub data Chosen (P : Type 0) : Type 0 where
  plain : Underlying → Chosen P
  noise : NoiseTransport P → Chosen P

-- What the builder of a handshake is given; the psk has the location 0.
pub record HandshakeSettings (P : Type 0) : Type 0 where
  pub params : P
  pub local_private_key : List ℕ
  pub remote_public_key : Option (List ℕ)
  pub psk : Option (List ℕ)
  pub initiator : Bool

module _ {P : Type 0} (sha256 : Text → List ℕ) (decode : Text → Option (List ℕ))
    (parse : Text → Option P) where
  -- `TcpTransport::new` and `UdpTransport::new`.
  unfoldable pub tcp_new : TransportConfig → Option Underlying
  tcp_new config = some (Underlying.tcp (from_cfg config.tcp) config.tcp)

  unfoldable pub udp_new : TransportConfig → Option Underlying
  udp_new config = elim config.udp [ none ↦ none | some u ↦ some (Underlying.udp (sha256 u.psk)) ]

  -- `T::new`
  unfoldable pub underlying_new : TransportType → TransportConfig → Option Underlying
  unfolding tcp_new udp_new
  underlying_new TransportType.tcp config = tcp_new config
  underlying_new TransportType.udp config = udp_new config

  -- An optional key in base64; `none` is an error.
  unfoldable pub decode_key : Option Text → Option (Option (List ℕ))
  decode_key none = some none
  decode_key (some x) = elim (decode x) [ none ↦ none | some key ↦ some (some key) ]

  -- The `new` of the Noise transport from the configuration's `noise` on.
  unfoldable pub over : Underlying → NoiseConfig → Option (NoiseTransport P)
  over u n = elim (decode_key n.remote_public_key) [
    | none ↦ none
    | some key ↦ elim (parse n.pattern) [
      | none ↦ none
      | some params ↦ some (record {
        underlying = u;
        config = n;
        params = params;
        remote_public_key = key;
        psk = none;
      })
    ]
  ]

  unfoldable pub noise_new : TransportType → TransportConfig → Option (NoiseTransport P)
  unfolding underlying_new over
  noise_new type config = elim (underlying_new type config) [
    | none ↦ none
    | some u ↦ elim config.noise [ none ↦ none | some n ↦ over u n ]
  ]

  -- `set_psk`, where the configured text is base64 of 32 bytes.
  unfoldable pub given_psk : NoiseConfig → NoiseTransport P → NoiseTransport P
  given_psk n t = elim n.psk [
    | none ↦ t
    | some psk ↦ elim (decode psk) [
      | none ↦ t
      | some bytes ↦ if length bytes == 32 then record t { psk = some bytes } else t
    ]
  ]

  -- The match on `transport_type`.
  unfoldable pub choose : TransportConfig → Option (Chosen P)
  unfolding underlying_new noise_new given_psk
  choose config = elim config.noise [
    | none ↦ elim (underlying_new config.transport_type config) [
      | none ↦ none
      | some u ↦ some (Chosen.plain u)
    ]
    | some n ↦ elim (noise_new config.transport_type config) [
      | none ↦ none
      | some t ↦ some (Chosen.noise (given_psk n t))
    ]
  ]

  -- `do_handshake` up to the handshake, with the key that `generate_keypair` gives.
  unfoldable pub handshake_settings :
      Option (List ℕ) → Bool → NoiseTransport P → Option (HandshakeSettings P)
  handshake_settings generated initiator t =
      let local : Option (List ℕ) = elim t.config.local_private_key [
        | none ↦ generated
        | some key ↦ decode key
      ] in
      elim local [
        | none ↦ none
        | some key ↦ some (record {
          params = t.params;
          local_private_key = key;
          remote_public_key = t.remote_public_key;
          psk = t.psk;
          initiator = initiator;
        })
      ]
