-- ===== src/Transport/Udp.antt =====
-- src/transport/udp.rs: one connection over UDP, its packets and its reader and writer.
-- A lock is held for the whole of each function below, so each is one step. The clock is an
-- argument. A waker is a number, and the wakers that are woken are returned.
pub mod Datagram
pub mod Io
pub mod Invariant
pub mod Acking
pub mod Connection
pub mod Dispatch
pub mod Task
mod Tests
use rathole_ng.Prelude.{
  ℕ, suc, ◌+◌, ◌-◌, ◌%◌, ◌^◌, ◌≡◌, Bool, true, false, not, ◌&&◌, ◌||◌, Option, none, some, List, [],
  ◌∷◌, ◌++◌, map, ltb, leb, ◌==◌, if◌then◌else◌, length, take, drop, min, ℕ_discrete,
}
use rathole_ng.Collections.BTreeMap
use rathole_ng.Collections.HashMap
use rathole_ng.Net.{SocketAddr}
use rathole_ng.Transport.Packet.{PacketKind, TransportPacketHeader}
use rathole_ng.Transport.Stream.{
  SentPacket, StreamState, StreamMode, Waker, add64, is_udp, build_ack, handle_ack, handle_nack,
  push_data,
}
use rathole_ng.Transport.Stream
use rathole_ng.Transport.Reliability.{
  Reliability, Retransmission, secs, duration_since, get_retransmissions,
}

pub record UdpStreamInner : Type 0 where
  pub peer_addr : SocketAddr
  pub reliability : Reliability
  pub last_received : ℕ
  pub last_sent : ℕ
  pub closed : Bool

pub record IncomingPacket : Type 0 where
  pub header : TransportPacketHeader
  pub payload : List ℕ
  pub src : SocketAddr

-- A packet to send: its kind, its number, the two acknowledgement fields and its bytes.
pub record Outgoing : Type 0 where
  pub kind : PacketKind
  pub seq : ℕ
  pub ack : ℕ
  pub bits : ℕ
  pub payload : List ℕ

-- What one packet does to its stream.
pub record Reaction : Type 0 where
  pub state : StreamState
  pub closes : Bool
  pub to_send : List Outgoing
  pub woken : List Waker

abbrev pub woken_by : Option Waker → List Waker
woken_by none = []
woken_by (some w) = w ∷ []

-- `if let Some((start, end)) = nack { .. } else if state.mode == StreamMode::Tcp { .. }`
unfoldable pub answer_data : Option (ℕ × ℕ) → StreamState → List Outgoing
answer_data (some (start, end)) s =
    record { kind = PacketKind.nack; seq = start; ack = end; bits = 0; payload = [] } ∷ []
answer_data none s =
    if is_udp s.mode
    then []
    else record {
      kind = PacketKind.sack;
      seq = 0;
      ack = (build_ack s).0;
      bits = (build_ack s).1;
      payload = [];
    }
      ∷ []

-- `for seq in retransmit`: the queue after it and the packets to send.
unfoldable pub resend : ℕ → List ℕ → List (ℕ × SentPacket) → List (ℕ × SentPacket) × List Outgoing
resend now [] queue = (queue, [])
resend now (k ∷ ks) queue = elim (BTreeMap.get k queue) [
  | none ↦ resend now ks queue
  | some p ↦
      let rest = resend now ks (BTreeMap.insert k (record p { sent_at = now }) queue) in
      (
        rest.0,
        record { kind = PacketKind.stream; seq = k; ack = 0; bits = 0; payload = p.payload }
            ∷ rest.1,
      )
]

-- The common end of the cases `Sack` and `Nack`.
unfoldable pub retransmit : ℕ → StreamState × List ℕ × List Waker → Reaction
retransmit now (s, wanted, woken) =
    let sent = resend now wanted s.write_queue in
    if length sent.0 == 0
    then record {
      state = record s { write_queue = sent.0; write_waker = none };
      closes = false;
      to_send = sent.1;
      woken = woken ++ woken_by s.write_waker;
    }
    else record {
      state = record s { write_queue = sent.0 };
      closes = false;
      to_send = sent.1;
      woken = woken;
    }

-- The `match pkt.header.packet_kind` of `handle_incoming`.
unfoldable pub react : ℕ → PacketKind → TransportPacketHeader → List ℕ → StreamState → Reaction
react now PacketKind.stream_open h bytes s = record {
  state = record s { established = true };
  closes = false;
  to_send =
      record { kind = PacketKind.stream_open_ack; seq = 0; ack = 0; bits = 0; payload = [] } ∷ [];
  woken = [];
}
react now PacketKind.stream_open_ack h bytes s = record {
  state = record s { established = true };
  closes = false;
  to_send = [];
  woken = [];
}
react now PacketKind.stream_close h bytes s = record {
  state = record s { read_waker = none; write_waker = none };
  closes = true;
  to_send = [];
  woken = woken_by s.read_waker ++ woken_by s.write_waker;
}
react now PacketKind.stream h bytes s =
    let (s', nack, woken) = push_data s h.seq bytes in
    record {
      state = record s' { read_waker = none };
      closes = false;
      to_send = answer_data nack s';
      woken = woken ++ woken_by s'.read_waker;
    }
react now PacketKind.sack h bytes s = retransmit now (handle_ack s h.ack h.ack_bits)
react now PacketKind.nack h bytes s = retransmit now (handle_nack s h.seq h.ack)
react now PacketKind.keepalive_ping h bytes s = record {
  state = s;
  closes = false;
  to_send =
      record { kind = PacketKind.keepalive_pong; seq = 0; ack = 0; bits = 0; payload = [] } ∷ [];
  woken = [];
}
react now PacketKind.keepalive_pong h bytes s = record {
  state = s;
  closes = false;
  to_send = [];
  woken = [];
}
react now PacketKind.service h bytes s = record {
  state = s;
  closes = false;
  to_send = [];
  woken = [];
}

-- `streams.entry(id).or_insert_with(|| StreamState::new(StreamMode::Tcp))`
unfoldable pub stream_or_new : ℕ → Reliability → StreamState
stream_or_new id r = elim (HashMap.get ℕ_discrete id r.streams) [
  | none ↦ Stream.new StreamMode.tcp
  | some s ↦ s
]

abbrev pub put_stream : ℕ → StreamState → Reliability → Reliability
put_stream id s r = record { streams = HashMap.insert ℕ_discrete id s r.streams }

-- The new state, the packets to send and the wakers that are woken.
unfoldable pub handle_incoming :
    ℕ → UdpStreamInner → IncomingPacket → UdpStreamInner × List Outgoing × List Waker
handle_incoming now inner pkt =
    if inner.closed
    then (inner, [], [])
    else (let id = pkt.header.channel_id in
        let r =
          react now pkt.header.packet_kind pkt.header pkt.payload
            (stream_or_new id inner.reliability) in
        (
          record inner {
            peer_addr = pkt.src;
            reliability = put_stream id r.state inner.reliability;
            last_received = now;
            closed = r.closes;
          },
          r.to_send,
          r.woken,
        ))

pub data TickError : Type 0 where
  closed timeout retransmission_timeout : TickError

-- `Ok(())` with the packets to send, each for its stream, or the error that ends the task.
pub data TickResult : Type 0 where
  ok : List (ℕ × Outgoing) → TickResult
  err : TickError → TickResult

-- `streams.values().any(|s| !s.write_queue.is_empty())`
unfoldable pub has_pending_writes : List (ℕ × StreamState) → Bool
has_pending_writes [] = false
has_pending_writes ((_, s) ∷ m) = ltb 0 (length s.write_queue) || has_pending_writes m

abbrev pub pings : List (ℕ × StreamState) → List (ℕ × Outgoing)
pings = map λ e.
    (e.0, record { kind = PacketKind.keepalive_ping; seq = 0; ack = 0; bits = 0; payload = [] })

abbrev pub resends : List Retransmission → List (ℕ × Outgoing)
resends =
    map λ t. (t.0, record { kind = PacketKind.stream; seq = t.1; ack = 0; bits = 0; payload = t.2 })

unfoldable pub handle_tick : ℕ → UdpStreamInner → UdpStreamInner × TickResult
handle_tick now inner =
    if inner.closed
    then (inner, TickResult.err TickError.closed)
    else if not (has_pending_writes inner.reliability.streams)
        && ltb (secs 300) (duration_since now inner.last_received)
    then (inner, TickResult.err TickError.timeout)
    else (let idle = ltb (secs 5) (duration_since now inner.last_sent) in
        let keepalive = if idle then pings inner.reliability.streams else [] in
        let (r, again, timed_out) = get_retransmissions inner.reliability now in
        let inner' = record inner { reliability = r } in
        if ltb 0 (length timed_out)
        then (inner', TickResult.err TickError.retransmission_timeout)
        else (inner', TickResult.ok (keepalive ++ resends again)))
