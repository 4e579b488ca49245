-- ===== src/Protocol.antt =====
-- src/protocol.rs: the messages between the client and the server, and their frames.
-- `bincode` is an argument. A connection that is read is the list of the bytes to come, and a read
-- past its end is an error, `none`.

pub mod Frames
mod Tests
use rathole_ng.Prelude.{
  ℕ, ◌%◌, ◌^◌, ◌≡◌, Bool, true, false, Option, none, some, List, [], ◌∷◌, ◌++◌, ltb, ◌==◌,
  if◌then◌else◌, length, take, drop, replicate, to_be_bytes, from_be_bytes,
}
use rathole_ng.Net.{SocketAddr}
use rathole_ng.Config.{Text, ServiceType}

-- 32 bytes
abbrev pub Digest : Type 0
Digest = List ℕ

abbrev pub current_proto_version : ℕ
current_proto_version = 1

pub data Hello : Type 0 where
  control_channel_hello data_channel_hello visitor_hello : ℕ → Digest → Hello

pub record VisitorAuth : Type 0 where
  pub token_digest : Digest
  pub bind_addr : Text
  pub service_type : ServiceType

pub data VisitorAck : Type 0 where
  ok auth_failed port_denied bind_error : VisitorAck

pub record Auth : Type 0 where
  pub digest : Digest

pub data Ack : Type 0 where
  ok service_not_exist auth_failed : Ack

pub data ControlChannelCmd : Type 0 where
  create_data_channel heart_beat : ControlChannelCmd

pub record ForwardAddr : Type 0 where
  pub ip : List ℕ
  pub port : ℕ
  pub is_ipv6 : Bool

-- `From<SocketAddr> for ForwardAddr`: four octets are copied over sixteen zeros.
unfoldable pub forward_of : SocketAddr → ForwardAddr
forward_of (SocketAddr.v4 o p) = record {
  ip = o ++ drop (length o) (replicate 16 0);
  port = p;
  is_ipv6 = false;
}
forward_of (SocketAddr.v6 o p flow scope) = record { ip = o; port = p; is_ipv6 = true }

-- `From<ForwardAddr> for SocketAddr`: a new IPv6 address has no flow and no scope.
unfoldable pub addr_of : ForwardAddr → SocketAddr
addr_of a = if a.is_ipv6 then SocketAddr.v6 a.ip a.port 0 0 else SocketAddr.v4 (take 4 a.ip) a.port

pub data DataChannelCmd : Type 0 where
  start_forward_tcp start_forward_udp : ForwardAddr → DataChannelCmd

pub data PacketMessage : Type 0 where
  hello : Hello → PacketMessage
  visitor_auth : VisitorAuth → PacketMessage
  visitor_ack : VisitorAck → PacketMessage
  auth : Auth → PacketMessage
  ack : Ack → PacketMessage
  control : ControlChannelCmd → PacketMessage
  data_command : DataChannelCmd → PacketMessage
  tcp_chunk : List ℕ → PacketMessage
  udp_packet : SocketAddr → List ℕ → PacketMessage

-- `conn.read_exact(&mut buf)`, for a buffer of `n` bytes.
unfoldable pub read_exact : ℕ → List ℕ → Option (List ℕ × List ℕ)
read_exact n conn = if ltb (length conn) n then none else some (take n conn, drop n conn)

unfoldable pub read_framed_packet : List ℕ → Option (List ℕ × List ℕ)
read_framed_packet conn = elim (read_exact 4 conn) [
  | none ↦ none
  | some (len, rest) ↦ read_exact (from_be_bytes len) rest
]

-- The bytes that are written; the length is cast to a `u32`.
unfoldable pub write_framed_packet : List ℕ → List ℕ
write_framed_packet bytes = to_be_bytes 4 (length bytes % 2 ^ 32) ++ bytes

-- `bincode`, for one type.
pub record Codec (A : Type 0) : Type 0 where
  pub serialize : A → List ℕ
  pub deserialize : List ℕ → Option A

-- What the code relies on, for a value that it sends: decoding undoes encoding.
abbrev pub IsCoded : {A : Type 0} → Codec A → A → Type 0
IsCoded c a = c.deserialize (c.serialize a) ≡ some a

abbrev pub version_of : Hello → ℕ
version_of (Hello.control_channel_hello v _) = v
version_of (Hello.data_channel_hello v _) = v
version_of (Hello.visitor_hello v _) = v

-- The match on the message that each reader makes, and the rest of the bytes.
abbrev pub expect :
    {A : Type 0}
    → (PacketMessage → Option A)
    → Option (PacketMessage × List ℕ)
    → Option (A × List ℕ)
expect select none = none
expect select (some (m, rest)) = elim (select m) [ none ↦ none | some a ↦ some (a, rest) ]

unfoldable pub as_hello : PacketMessage → Option Hello
as_hello (PacketMessage.hello h) = if version_of h == current_proto_version then some h else none
as_hello _ = none

unfoldable pub as_auth : PacketMessage → Option Auth
as_auth (PacketMessage.auth a) = some a
as_auth _ = none

unfoldable pub as_ack : PacketMessage → Option Ack
as_ack (PacketMessage.ack a) = some a
as_ack _ = none

unfoldable pub as_control_cmd : PacketMessage → Option ControlChannelCmd
as_control_cmd (PacketMessage.control c) = some c
as_control_cmd _ = none

unfoldable pub as_data_cmd : PacketMessage → Option DataChannelCmd
as_data_cmd (PacketMessage.data_command c) = some c
as_data_cmd _ = none

unfoldable pub as_visitor_auth : PacketMessage → Option VisitorAuth
as_visitor_auth (PacketMessage.visitor_auth a) = some a
as_visitor_auth _ = none

unfoldable pub as_visitor_ack : PacketMessage → Option VisitorAck
as_visitor_ack (PacketMessage.visitor_ack a) = some a
as_visitor_ack _ = none

module _ (bincode : Codec PacketMessage) where
  unfoldable pub read_packet_message : List ℕ → Option (PacketMessage × List ℕ)
  read_packet_message conn = elim (read_framed_packet conn) [
    | none ↦ none
    | some (bytes, rest) ↦ elim (bincode.deserialize bytes) [
      | none ↦ none
      | some m ↦ some (m, rest)
    ]
  ]

  unfoldable pub write_packet_message : PacketMessage → List ℕ
  write_packet_message m = write_framed_packet (bincode.serialize m)

  unfoldable pub read_hello : List ℕ → Option (Hello × List ℕ)
  unfolding read_packet_message
  read_hello conn = expect as_hello (read_packet_message conn)

  unfoldable pub read_auth : List ℕ → Option (Auth × List ℕ)
  unfolding read_packet_message
  read_auth conn = expect as_auth (read_packet_message conn)

  unfoldable pub read_ack : List ℕ → Option (Ack × List ℕ)
  unfolding read_packet_message
  read_ack conn = expect as_ack (read_packet_message conn)

  unfoldable pub read_control_cmd : List ℕ → Option (ControlChannelCmd × List ℕ)
  unfolding read_packet_message
  read_control_cmd conn = expect as_control_cmd (read_packet_message conn)

  unfoldable pub read_data_cmd : List ℕ → Option (DataChannelCmd × List ℕ)
  unfolding read_packet_message
  read_data_cmd conn = expect as_data_cmd (read_packet_message conn)

  unfoldable pub read_visitor_auth : List ℕ → Option (VisitorAuth × List ℕ)
  unfolding read_packet_message
  read_visitor_auth conn = expect as_visitor_auth (read_packet_message conn)

  unfoldable pub read_visitor_ack : List ℕ → Option (VisitorAck × List ℕ)
  unfolding read_packet_message
  read_visitor_ack conn = expect as_visitor_ack (read_packet_message conn)

pub record UdpHeader : Type 0 where
  pub from : SocketAddr
  pub len : ℕ

pub record UdpTraffic : Type 0 where
  pub from : SocketAddr
  pub payload : List ℕ

module _ (bincode : Codec UdpHeader) where
  abbrev pub udp_header : UdpTraffic → UdpHeader
  udp_header t = record { from = t.from; len = length t.payload % 2 ^ 16 }

  -- `UdpTraffic::write`: the length of the header as a `u8`, the header and the bytes.
  unfoldable pub write_udp : UdpTraffic → List ℕ
  write_udp t = let v = bincode.serialize (udp_header t) in (length v % 2 ^ 8) ∷ (v ++ t.payload)

  -- `UdpTraffic::read`, after the length of the header.
  unfoldable pub read_udp : List ℕ → ℕ → Option (UdpTraffic × List ℕ)
  read_udp conn hdr_len = elim (read_exact hdr_len conn) [
    | none ↦ none
    | some (buf, rest) ↦ elim (bincode.deserialize buf) [
      | none ↦ none
      | some hdr ↦ elim (read_exact hdr.len rest) [
        | none ↦ none
        | some (bytes, rest') ↦ some (record { from = hdr.from; payload = bytes }, rest')
      ]
    ]
  ]
