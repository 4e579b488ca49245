-- ===== src/Transport/Udp/Io.antt =====
-- src/transport/udp.rs: the reader and the writer of a `UdpStream`, and what its task does with
-- what is written.
pub mod Writing
use rathole_ng.Prelude.{
  ℕ, ◌+◌, ◌-◌, Bool, true, false, Option, none, some, List, [], ◌∷◌, ◌++◌, min, ltb, leb, ◌==◌,
  if◌then◌else◌, length, take, drop, ℕ_discrete,
}
use rathole_ng.Collections.BTreeMap
use rathole_ng.Collections.HashMap
use rathole_ng.Transport.Packet.{PacketKind}
use rathole_ng.Transport.Reliability.{Reliability, secs, duration_since}
use rathole_ng.Transport.Stream.{StreamState, StreamMode, Waker, add64}
use rathole_ng.Transport.Udp.{UdpStreamInner, put_stream}

pub data IoError : Type 0 where
  stream_not_found write_zero : IoError

pub data Poll (A : Type 0) : Type 0 where
  ready : A → Poll A
  pending : Poll A
  failed : IoError → Poll A

-- What `write_tx` carries: a number and the bytes; number 0 stands for `StreamClose`.
abbrev pub Written : Type 0
Written = ℕ × List ℕ

-- `stream_id`, `inner` and the queue behind `write_tx`.
pub record UdpStream : Type 0 where
  pub stream_id : ℕ
  pub inner : UdpStreamInner
  pub write_queue : List Written

-- `write_tx.try_send`, on a channel with room for 1024; a full channel drops the item.
unfoldable pub try_send : Written → List Written → List Written
try_send w channel = if ltb (length channel) 1024 then channel ++ w ∷ [] else channel

abbrev pub with_state : UdpStream → StreamState → UdpStream
with_state u s =
    let inner = u.inner in
    record u { inner = record inner { reliability = put_stream u.stream_id s inner.reliability } }

-- The reader takes at most `remaining` bytes.
unfoldable pub read_state : UdpStream → Waker → ℕ → StreamState → UdpStream × Poll (List ℕ)
read_state u waker remaining s =
    if ltb 0 (length s.read_buf_bytes)
    then (let len = min remaining (length s.read_buf_bytes) in
        (
          with_state u (record s { read_buf_bytes = drop len s.read_buf_bytes }),
          Poll.ready (take len s.read_buf_bytes),
        ))
    else if u.inner.closed
    then (u, Poll.ready [])
    else (with_state u (record s { read_waker = some waker }), Poll.pending)

unfoldable pub poll_read : UdpStream → Waker → ℕ → UdpStream × Poll (List ℕ)
poll_read u waker remaining =
    elim (HashMap.get ℕ_discrete u.stream_id u.inner.reliability.streams) [
      | none ↦ (u, Poll.failed IoError.stream_not_found)
      | some s ↦ read_state u waker remaining s
    ]

-- The state after one chunk is queued under the next number.
unfoldable pub enqueue : ℕ → StreamState → List ℕ → StreamState
enqueue now s chunk = record s {
  next_write_seq = add64 s.next_write_seq 1;
  write_queue =
      BTreeMap.insert s.next_write_seq (record { payload = chunk; sent_at = now; retransmits = 0 })
        s.write_queue;
}

unfoldable pub write_state : ℕ → UdpStream → Waker → List ℕ → StreamState → UdpStream × Poll ℕ
write_state now u waker buf s =
    if leb 1024 (length s.write_queue)
    then (with_state u (record s { write_waker = some waker }), Poll.pending)
    else (let chunk_len = min (length buf) 1100 in
        let chunk = take chunk_len buf in
        let u' = with_state u (enqueue now s chunk) in
        (
          record u' { write_queue = try_send (s.next_write_seq, chunk) u'.write_queue },
          Poll.ready chunk_len,
        ))

unfoldable pub poll_write : ℕ → UdpStream → Waker → List ℕ → UdpStream × Poll ℕ
poll_write now u waker buf =
    if u.inner.closed
    then (u, Poll.failed IoError.write_zero)
    else elim (HashMap.get ℕ_discrete u.stream_id u.inner.reliability.streams) [
      | none ↦ (u, Poll.failed IoError.stream_not_found)
      | some s ↦ write_state now u waker buf s
    ]

unfoldable pub poll_shutdown : UdpStream → UdpStream
poll_shutdown u =
    let inner = u.inner in
    record u {
      inner = record inner { closed = true };
      write_queue = try_send (0, []) u.write_queue;
    }

-- What the task sends for an item of the channel: the kind, the number and the bytes.
unfoldable pub packet_of : Written → PacketKind × ℕ × List ℕ
packet_of (seq, bytes) =
    if seq == 0 then (PacketKind.stream_close, 0, []) else (PacketKind.stream, seq, bytes)

-- The end of the task: the stream is closed and its wakers are woken.
abbrev wakers_of : Option StreamState → List Waker
wakers_of none = []
wakers_of (some s) =
    elim s.read_waker [ none ↦ [] | some w ↦ w ∷ [] ]
    ++ elim s.write_waker [ none ↦ [] | some w ↦ w ∷ [] ]

abbrev without_wakers : ℕ → Option StreamState → Reliability → Reliability
without_wakers id none r = r
without_wakers id (some s) r = put_stream id (record s { read_waker = none; write_waker = none }) r

unfoldable pub close_stream : ℕ → UdpStreamInner → UdpStreamInner × List Waker
close_stream id inner =
    let s = HashMap.get ℕ_discrete id inner.reliability.streams in
    (
      record inner { closed = true; reliability = without_wakers id s inner.reliability },
      wakers_of s,
    )

pub data Handshake : Type 0 where
  timed_out closed established : Handshake
  send_open : Handshake

-- One round of `UdpStream::connect`: it ends, or sends a `StreamOpen` and waits for the next tick.
unfoldable pub connect_round : ℕ → ℕ → UdpStream → Handshake
connect_round start now u =
    if ltb (secs 10) (duration_since now start)
    then Handshake.timed_out
    else if u.inner.closed
    then Handshake.closed
    else elim (HashMap.get ℕ_discrete u.stream_id u.inner.reliability.streams) [
      | none ↦ Handshake.send_open
      | some s ↦ if s.established then Handshake.established else Handshake.send_open
    ]

-- `set_udp_nack_mode`
unfoldable pub set_udp_nack_mode : UdpStream → UdpStream
set_udp_nack_mode u = elim (HashMap.get ℕ_discrete u.stream_id u.inner.reliability.streams) [
  | none ↦ u
  | some s ↦ with_state u (record s { mode = StreamMode.udp })
]
