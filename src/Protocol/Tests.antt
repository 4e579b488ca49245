-- ===== src/Protocol/Tests.antt =====
-- Messages on the wire at concrete inputs, with codecs for chunks and for IPv4 sources.
use rathole_ng.Prelude.{ℕ, ◌≡◌, refl, some, List, [], ◌∷◌, ◌++◌, take, get_or, arith}
use rathole_ng.Net.{SocketAddr, octets, port}
use rathole_ng.Protocol.{
  PacketMessage, read_framed_packet, write_framed_packet, Codec, UdpHeader, UdpTraffic, write_udp,
}
use rathole_ng.Protocol.Frames.{
  read_all, write_all, read_traffic, read-write_framed_packet, read_all-write_all, read-write_udp,
}

abbrev bytes : List ℕ
bytes = 7 ∷ 8 ∷ []

abbrev rest : List ℕ
rest = 9 ∷ []

read-write_framed_packet_example :
    read_framed_packet (write_framed_packet bytes ++ rest) ≡ some (bytes, rest)
read-write_framed_packet_example = read-write_framed_packet bytes rest (omega arith)

abbrev chunk_of : PacketMessage → List ℕ
chunk_of (PacketMessage.tcp_chunk c) = c
chunk_of _ = []

abbrev chunks : Codec PacketMessage
chunks = record { serialize = chunk_of; deserialize = λ b. some (PacketMessage.tcp_chunk b) }

abbrev messages : List PacketMessage
messages = PacketMessage.tcp_chunk bytes ∷ PacketMessage.tcp_chunk rest ∷ []

read_all-write_all_example :
    read_all chunks 2 (write_all chunks messages ++ rest) ≡ some (messages, rest)
read_all-write_all_example =
    read_all-write_all chunks messages rest ((refl, omega arith), ((refl, omega arith), tt))

abbrev source : SocketAddr
source = SocketAddr.v4 (127 ∷ 0 ∷ 0 ∷ 1 ∷ []) 80

-- The octets, the port and the length, a number each.
abbrev headers : Codec UdpHeader
headers = record {
  serialize = λ h. octets h.from ++ port h.from ∷ h.len ∷ [];
  deserialize =
      λ b. some (record { from = SocketAddr.v4 (take 4 b) (get_or b 4 0); len = get_or b 5 0 });
}

abbrev datagram : UdpTraffic
datagram = record { from = source; payload = bytes }

read-write_udp_example :
    read_traffic headers (write_udp headers datagram ++ rest) ≡ some (datagram, rest)
read-write_udp_example =
    read-write_udp headers datagram rest (ground arith) (omega arith) (omega arith)
