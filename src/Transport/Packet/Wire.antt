-- ===== src/Transport/Packet/Wire.antt =====
-- The header on the wire, and back.
use rathole_ng.Prelude.{
  ℕ, ◌+◌, ◌<◌, ◌≡◌, refl, ◌↔◌, none, some, false, List, [], ◌++◌, arith, ltb, length, to_be_bytes,
  from_be_bytes-to_be_bytes,
}
use rathole_ng.Transport.Packet.{
  PacketKind, TransportPacketHeader, IsHeader, kind_to_u8, kind_from_u8, encode, decode,
}

kind_from_u8-kind_to_u8 : (k : PacketKind) → kind_from_u8 (kind_to_u8 k) ≡ k
unfolding kind_from_u8 kind_to_u8
kind_from_u8-kind_to_u8 PacketKind.stream = refl
kind_from_u8-kind_to_u8 _ = refl

encode_not_short :
    (h : TransportPacketHeader) (payload : List ℕ)
    → ltb (length (encode h [] ++ payload)) 29 ≡ false
unfolding encode to_be_bytes
encode_not_short h payload = ground arith

-- Encoding a header in front of any payload and decoding the bytes gives the header and the payload.
pub decode-encode :
    (h : TransportPacketHeader) (payload : List ℕ)
    → IsHeader h
    → decode (encode h [] ++ payload) ≡ some (h, payload)
unfolding encode decode to_be_bytes
decode-encode h payload v = rw (encode_not_short h payload) λ i. some (
  record {
    channel_id = from_be_bytes-to_be_bytes 4 h.channel_id v.channel_id_u32 i;
    packet_kind = kind_from_u8-kind_to_u8 h.packet_kind i;
    seq = from_be_bytes-to_be_bytes 8 h.seq v.seq_u64 i;
    ack = from_be_bytes-to_be_bytes 8 h.ack v.ack_u64 i;
    ack_bits = from_be_bytes-to_be_bytes 8 h.ack_bits v.ack_bits_u64 i;
  },
  payload,
)

-- Exactly the buffers shorter than a header are refused.
pub decode-eq-none_iff : (buf : List ℕ) → (decode buf ≡ none) ↔ (length buf < 29)
unfolding decode
decode-eq-none_iff buf = ((λ e. ground arith), (λ h. ground arith))

pub length-encode :
    (h : TransportPacketHeader) (payload : List ℕ)
    → length (encode h [] ++ payload) ≡ 29 + length payload
unfolding encode to_be_bytes
length-encode h payload = omega arith
