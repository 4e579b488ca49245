-- ===== src/Transport/Packet/Tests.antt =====
-- The header on the wire at concrete inputs.
use rathole_ng.Prelude.{◌≡◌, some, [], ◌∷◌, ◌++◌, arith}
use rathole_ng.Transport.Packet.{PacketKind, TransportPacketHeader, IsHeader, encode, decode}
use rathole_ng.Transport.Packet.Wire.{decode-encode}

abbrev header : TransportPacketHeader
header = record { channel_id = 258; packet_kind = PacketKind.nack; seq = 5; ack = 9; ack_bits = 0 }

header-IsHeader : IsHeader header
header-IsHeader = record {
  channel_id_u32 = omega arith;
  seq_u64 = omega arith;
  ack_u64 = omega arith;
  ack_bits_u64 = omega arith;
}

decode-encode_example : decode (encode header [] ++ 1 ∷ 2 ∷ []) ≡ some (header, 1 ∷ 2 ∷ [])
decode-encode_example = decode-encode header (1 ∷ 2 ∷ []) header-IsHeader
