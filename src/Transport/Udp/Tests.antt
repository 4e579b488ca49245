-- ===== src/Transport/Udp/Tests.antt =====
-- A connection over UDP at concrete inputs.
use rathole_ng.Prelude.{
  ℕ, ◌+◌, ◌≤◌, ◌<◌, ◌^◌, ◌≡◌, ◌⊎◌, refl, subst, Bool, true, false, none, some, List, [], ◌∷◌, ◌++◌,
  arith, length, min, take, drop, length-append,
}
use rathole_ng.Collections.BTreeMap
use rathole_ng.Collections.HashMap
use rathole_ng.Net.{SocketAddr}
use rathole_ng.Transport.Packet.{PacketKind, TransportPacketHeader, IsHeader, encode}
use rathole_ng.Transport.Stream.{StreamMode, StreamState, build_ack, ack_bitmap, push_data, drain}
use rathole_ng.Transport.Udp.{UdpStreamInner, IncomingPacket, react}
use rathole_ng.Transport.Udp.Datagram.{
  Cipher, IsAead, header_of, send_packet_raw, open_datagram, recv_datagram,
  open_datagram-send_packet_raw,
}
use rathole_ng.Transport.Udp.Io.{UdpStream, enqueue, write_state, poll_write}
use rathole_ng.Transport.Udp.Io.Writing.{state_of, poll_write_takes}
use rathole_ng.Transport.Udp.Invariant.{IsStream}
use rathole_ng.Transport.Udp.Connection.{IsConnection}
use rathole_ng.Transport.Udp.Dispatch.{Listener}

abbrev peer : SocketAddr
peer = SocketAddr.v4 (127 ∷ 0 ∷ 0 ∷ 1 ∷ []) 2333

abbrev stream_of : StreamMode → List ℕ → StreamState
stream_of mode bytes = record {
  mode = mode;
  established = true;
  next_write_seq = 1;
  next_read_seq = 1;
  write_queue = [];
  read_buffer = [];
  read_buf_bytes = bytes;
  read_waker = none;
  write_waker = none;
}

abbrev tcp_stream : StreamState
tcp_stream = stream_of StreamMode.tcp []

stream_of-IsStream : (mode : StreamMode) (bytes : List ℕ) → IsStream (stream_of mode bytes)
stream_of-IsStream mode bytes = record {
  receives = record { from_one = omega arith; cursor_u64 = omega arith; ahead = tt; bounded = tt };
  sends = record { cursor_u64 = omega arith; ordered = tt; sent = tt };
  writes_from_one = omega arith;
}

-- One stream, of number 4.
abbrev inner_of : Bool → StreamState → UdpStreamInner
inner_of closed s = record {
  peer_addr = peer;
  reliability = record { streams = (4, s) ∷ [] };
  last_received = 0;
  last_sent = 0;
  closed = closed;
}

abbrev udp_of : Bool → StreamState → UdpStream
udp_of closed s = record { stream_id = 4; inner = inner_of closed s; write_queue = [] }

abbrev data_header : TransportPacketHeader
data_header = record {
  channel_id = 4;
  packet_kind = PacketKind.stream;
  seq = 1;
  ack = 0;
  ack_bits = 0;
}

abbrev one_byte : List ℕ
one_byte = 7 ∷ []

abbrev data_packet : IncomingPacket
data_packet = record { header = data_header; payload = one_byte; src = peer }

-- A cipher that hides nothing and appends a tag of zeros.
abbrev tag : List ℕ
tag = 0 ∷ 0 ∷ 0 ∷ 0 ∷ 0 ∷ 0 ∷ 0 ∷ 0 ∷ 0 ∷ 0 ∷ 0 ∷ 0 ∷ 0 ∷ 0 ∷ 0 ∷ 0 ∷ []

abbrev plain_cipher : Cipher
plain_cipher = record {
  encrypt = λ nonce bytes. some (tag ++ bytes);
  decrypt = λ nonce bytes. some (drop 16 bytes);
}

plain_cipher-IsAead : IsAead plain_cipher
plain_cipher-IsAead = record {
  decrypt-encrypt = λ nonce bytes e h. ground arith;
  length-encrypt = λ nonce bytes e h. ground (arith, length-append tag bytes);
}

abbrev nonce : List ℕ
nonce = 1 ∷ 2 ∷ 3 ∷ 4 ∷ 5 ∷ 6 ∷ 7 ∷ 8 ∷ 9 ∷ 10 ∷ 11 ∷ 12 ∷ []

abbrev sent_header : TransportPacketHeader
sent_header = header_of (inner_of false tcp_stream) 4 PacketKind.stream 1 none none

abbrev datagram : List ℕ
datagram = nonce ++ (tag ++ (encode sent_header [] ++ one_byte))

sent_header-IsHeader : IsHeader sent_header
unfolding header_of build_ack HashMap.get ack_bitmap BTreeMap.contains_key
sent_header-IsHeader = record {
  channel_id_u32 = ground arith;
  seq_u64 = ground arith;
  ack_u64 = ground arith;
  ack_bits_u64 = ground arith;
}

open_datagram-send_packet_raw_example :
    (open_datagram plain_cipher datagram ≡ some (sent_header, one_byte))
    × (length datagram ≡ 57 + length one_byte)
    × ((2048 < length datagram)
        ⊎ (recv_datagram plain_cipher datagram ≡ some (sent_header, one_byte)))
unfolding send_packet_raw
open_datagram-send_packet_raw_example =
    open_datagram-send_packet_raw plain_cipher 5 nonce (inner_of false tcp_stream)
      (record (inner_of false tcp_stream) { last_sent = 5 }) 4 PacketKind.stream 1 none none
      one_byte datagram plain_cipher-IsAead (omega arith) sent_header-IsHeader refl

poll_write_takes_example :
    let s = tcp_stream in
    (1 ≡ min (length one_byte) 1100)
    × ((udp_of false s).inner.closed ≡ false)
    × (state_of (poll_write 5 (udp_of false s) 8 one_byte).0 ≡ some (enqueue 5 s (take 1 one_byte)))
    × (BTreeMap.get s.next_write_seq (enqueue 5 s (take 1 one_byte)).write_queue
        ≡ some (record { payload = take 1 one_byte; sent_at = 5; retransmits = 0 }))
    × (length (enqueue 5 s (take 1 one_byte)).write_queue ≤ 1024)
unfolding HashMap.get poll_write write_state
poll_write_takes_example =
    poll_write_takes 5 (udp_of false tcp_stream) 8 1 one_byte tcp_stream (ground arith)
      (ground arith)

abbrev full_stream : StreamState
full_stream = stream_of StreamMode.tcp (1 ∷ 2 ∷ 3 ∷ [])

abbrev after_data : StreamState
after_data = (react 5 PacketKind.stream data_header one_byte tcp_stream).state

after_data_cursor : after_data.next_read_seq ≡ 2
unfolding react push_data BTreeMap.contains_key BTreeMap.insert drain BTreeMap.get BTreeMap.remove
after_data_cursor = ground arith

cursor_room : after_data.next_read_seq + 64 ≤ 2 ^ 64
cursor_room = rw after_data_cursor (omega arith)

cursor_window : 1 < after_data.next_read_seq + 64
cursor_window = rw after_data_cursor (omega arith)

tcp-IsConnection : IsConnection (inner_of false tcp_stream)
unfolding HashMap.get
tcp-IsConnection = record {
  at = λ id s found.
      (let same : tcp_stream ≡ s = ground arith in
        subst IsStream same (stream_of-IsStream StreamMode.tcp []));
}

abbrev listener : Listener
listener = record { active_streams = []; incoming = [] }

abbrev other : ℕ
other = 9
