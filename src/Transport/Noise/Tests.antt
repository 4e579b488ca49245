-- ===== src/Transport/Noise/Tests.antt =====
-- A configuration for Noise over UDP, whose pre-shared key is too short.
use rathole_ng.Prelude.{ℕ, ◌≡◌, refl, true, Option, none, some, List, [], ◌∷◌, arith, length}
use rathole_ng.Config.{Text, TransportType, NoiseConfig, TransportConfig}
use rathole_ng.Transport.Noise.{
  underlying_new, tcp_new, udp_new, decode_key, over, noise_new, given_psk, choose,
  handshake_settings,
}
use rathole_ng.Transport.Noise.Choice.{IsPsk, settings_of, malformed_psk_is_dropped}

abbrev digest : Text → List ℕ
digest text = text

-- A decoder to which each character is a byte.
abbrev decode : Text → Option (List ℕ)
decode text = some text

abbrev parse : Text → Option ℕ
parse text = some (length text)

abbrev noise : NoiseConfig
noise = record {
  pattern = 78 ∷ 75 ∷ [];
  local_private_key = none;
  remote_public_key = some (1 ∷ []);
  psk = some (7 ∷ 7 ∷ []);
}

abbrev config : TransportConfig
config = record {
  transport_type = TransportType.udp;
  tcp = record { nodelay = true; keepalive_secs = 20; keepalive_interval = 8; proxy = none };
  noise = some noise;
  udp = some (record { psk = 9 ∷ [] });
}

noise_has_no_psk :
    settings_of digest decode parse (some []) true (choose digest decode parse config)
    ≡ some (record {
      params = 2;
      local_private_key = [];
      remote_public_key = some (1 ∷ []);
      psk = none;
      initiator = true;
    })
unfolding choose noise_new over given_psk underlying_new tcp_new udp_new decode_key
    handshake_settings
noise_has_no_psk = refl

too_short : (bytes : List ℕ) → ¬ IsPsk digest decode parse (7 ∷ 7 ∷ []) bytes
too_short bytes key = absurd (ground arith)

malformed_psk_is_dropped_example :
    settings_of digest decode parse (some []) true (choose digest decode parse config)
    ≡ settings_of digest decode parse
        (some [])
        true
        (choose digest decode parse (record config { noise = some (record noise { psk = none }) }))
malformed_psk_is_dropped_example =
    malformed_psk_is_dropped digest decode parse config noise (7 ∷ 7 ∷ []) (some []) true refl refl
      too_short
