-- ===== src/Transport/Packet.antt =====
-- src/transport/reliability.rs: `PacketKind` and `TransportPacketHeader`.
pub mod Wire
mod Tests
use rathole_ng.Prelude.{
  ℕ, suc, ◌-◌, ◌<◌, ◌^◌, ◌≡◌, refl, Bool, Option, none, some, List, [], ◌∷◌, ◌++◌, ltb, ◌==◌,
  if◌then◌else◌, length, take, drop, get_or, to_be_bytes, from_be_bytes,
}

pub data PacketKind : Type 0 where
  stream stream_open stream_open_ack stream_close sack : PacketKind
  keepalive_ping keepalive_pong service nack : PacketKind

-- `packet_kind as u8`
unfoldable pub kind_to_u8 : PacketKind → ℕ
kind_to_u8 PacketKind.stream = 0
kind_to_u8 PacketKind.stream_open = 1
kind_to_u8 PacketKind.stream_open_ack = 2
kind_to_u8 PacketKind.stream_close = 3
kind_to_u8 PacketKind.sack = 4
kind_to_u8 PacketKind.keepalive_ping = 5
kind_to_u8 PacketKind.keepalive_pong = 6
kind_to_u8 PacketKind.service = 7
kind_to_u8 PacketKind.nack = 8

-- `PacketKind::from(v: u8)`
unfoldable pub kind_from_u8 : ℕ → PacketKind
kind_from_u8 v =
    if v == 1
    then PacketKind.stream_open
    else if v == 2
    then PacketKind.stream_open_ack
    else if v == 3
    then PacketKind.stream_close
    else if v == 4
    then PacketKind.sack
    else if v == 5
    then PacketKind.keepalive_ping
    else if v == 6
    then PacketKind.keepalive_pong
    else if v == 7
    then PacketKind.service
    else if v == 8
    then PacketKind.nack
    else PacketKind.stream

pub record TransportPacketHeader : Type 0 where
  pub channel_id : ℕ
  pub packet_kind : PacketKind
  pub seq : ℕ
  pub ack : ℕ
  pub ack_bits : ℕ

-- The bytes that `encode` appends to the buffer.
unfoldable pub encode : TransportPacketHeader → List ℕ → List ℕ
encode h buf =
    buf
    ++ (to_be_bytes 4 h.channel_id
        ++ (kind_to_u8 h.packet_kind
            ∷ (to_be_bytes 8 h.seq ++ (to_be_bytes 8 h.ack ++ to_be_bytes 8 h.ack_bits))))

-- `buf[a..b]`
abbrev pub slice : List ℕ → ℕ → ℕ → List ℕ
slice buf a b = take (b - a) (drop a buf)

unfoldable pub decode : List ℕ → Option (TransportPacketHeader × List ℕ)
decode buf =
    if ltb (length buf) 29
    then none
    else some (
      record {
        channel_id = from_be_bytes (slice buf 0 4);
        packet_kind = kind_from_u8 (get_or buf 4 0);
        seq = from_be_bytes (slice buf 5 13);
        ack = from_be_bytes (slice buf 13 21);
        ack_bits = from_be_bytes (slice buf 21 29);
      },
      drop 29 buf,
    )

-- The fields fit their Rust types: one `u32` and three `u64`.
pub record IsHeader (h : TransportPacketHeader) : Type 0 where
  pub channel_id_u32 : h.channel_id < 2 ^ 32
  pub seq_u64 : h.seq < 2 ^ 64
  pub ack_u64 : h.ack < 2 ^ 64
  pub ack_bits_u64 : h.ack_bits < 2 ^ 64
