-- ===== src/Transport/Session.antt =====
-- src/transport/reliability.rs and src/transport/udp.rs: the two ends of one stream over a network
-- that may lose, repeat, delay and reorder packets, and that forges none.
-- Each end moves as the handlers of Transport/Udp.antt do. What an end has sent stays in its list
-- `sent`: the network may deliver any of it, any number of times, at any later time, or never.
pub mod Queue
pub mod Sending
pub mod Receiving
pub mod Moves
pub mod Delivered
pub mod Unacked
mod Tests
use rathole_ng.Prelude.{
  ℕ, ◌+◌, ◌-◌, ◌<◌, ◌^◌, ◌≡◌, ◌⊎◌, some, List, [], ◌∷◌, ◌++◌, map, length, min, take, drop,
}
use rathole_ng.Transport.Packet.{PacketKind, TransportPacketHeader}
use rathole_ng.Transport.Stream.{StreamState, StreamMode}
use rathole_ng.Transport.Stream
use rathole_ng.Transport.Reliability.{Retransmission, tick_stream}
use rathole_ng.Transport.Udp.{Outgoing, react}
use rathole_ng.Transport.Udp.Io.{UdpStream, Poll, enqueue, poll_write}
use rathole_ng.Transport.Udp.Io.Writing.{state_of}

-- One end: its state, the bytes that its reader took, and what it has sent.
pub record End : Type 0 where
  pub state : StreamState
  pub taken : List ℕ
  pub sent : List Outgoing

abbrev pub In : Outgoing → List Outgoing → Type 0
In o [] = ⊥
In o (p ∷ os) = (o ≡ p) ⊎ In o os

-- The header of a packet as the other end decodes it.
abbrev pub header : ℕ → Outgoing → TransportPacketHeader
header id o = record {
  channel_id = id;
  packet_kind = o.kind;
  seq = o.seq;
  ack = o.ack;
  ack_bits = o.bits;
}

abbrev pub data_packet : ℕ → List ℕ → Outgoing
data_packet seq bytes = record {
  kind = PacketKind.stream;
  seq = seq;
  ack = 0;
  bits = 0;
  payload = bytes;
}

-- The packets of the timer.
abbrev pub retransmitted : List Retransmission → List Outgoing
retransmitted [] = []
retransmitted (t ∷ ts) = data_packet t.1 t.2 ∷ retransmitted ts

-- What each move makes of an end. The writer's `k`-th chunk is `chunk k`.
abbrev pub written : (ℕ → List ℕ) → ℕ → End → End
written chunk now e =
    let k = e.state.next_write_seq in
    record e { state = enqueue now e.state (chunk k); sent = data_packet k (chunk k) ∷ e.sent }

abbrev pub received : ℕ → ℕ → Outgoing → End → End
received now id o e =
    let r = react now o.kind (header id o) o.payload e.state in
    record e { state = r.state; sent = r.to_send ++ e.sent }

abbrev pub ticked : ℕ → ℕ → End → End
ticked now id e =
    let t = tick_stream now id e.state in
    record e { state = t.0; sent = retransmitted t.1 ++ e.sent }

-- A read of at most `n` bytes, as by `poll_read`.
abbrev pub read : ℕ → End → End
read n e =
    let s = e.state in
    let len = min n (length s.read_buf_bytes) in
    record e {
      state = record s { read_buf_bytes = drop len s.read_buf_bytes };
      taken = e.taken ++ take len s.read_buf_bytes;
    }

abbrev pub switched : End → End
switched e = let s = e.state in record e { state = record s { mode = StreamMode.udp } }

-- The moves of an end, where the inbox is all that the other end has sent. A write is a `poll_write`
-- that succeeds on the end's state, with numbers left: the bytes that it takes are the next chunk.
pub data Move (chunk : ℕ → List ℕ) (inbox : List Outgoing) (e : End) : End → Type 0 where
  write :
      (now : ℕ) (u : UdpStream) (waker n : ℕ) (buf : List ℕ)
      → state_of u ≡ some e.state
      → (poll_write now u waker buf).1 ≡ Poll.ready n
      → take n buf ≡ chunk e.state.next_write_seq
      → e.state.next_write_seq + 1 < 2 ^ 64 - 1
      → Move chunk inbox e (written chunk now e)
  receive : (now id : ℕ) (o : Outgoing) → In o inbox → Move chunk inbox e (received now id o e)
  tick : (now id : ℕ) → Move chunk inbox e (ticked now id e)
  take_bytes : (n : ℕ) → Move chunk inbox e (read n e)
  set_udp_nack_mode : Move chunk inbox e (switched e)

pub record Session : Type 0 where
  pub left : End
  pub right : End

abbrev pub new_end : StreamMode → End
new_end mode = record { state = Stream.new mode; taken = []; sent = [] }

-- Two new streams.
abbrev pub init : StreamMode → StreamMode → Session
init m n = record { left = new_end m; right = new_end n }

module _ (lefts rights : ℕ → List ℕ) where
  -- One end moves.
  pub data Step (s : Session) : Session → Type 0 where
    go_left : {e : End} → Move lefts s.right.sent s.left e → Step s (record s { left = e })
    go_right : {e : End} → Move rights s.left.sent s.right e → Step s (record s { right = e })

  -- The sessions that come about from two new streams.
  pub data Reach (m n : StreamMode) : Session → Type 0 where
    start : Reach m n (init m n)
    next : {s t : Session} → Reach m n s → Step s t → Reach m n t
