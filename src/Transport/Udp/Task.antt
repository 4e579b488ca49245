-- ===== src/Transport/Udp/Task.antt =====
-- src/transport/udp.rs: a whole connection, the task that `UdpStream::new` spawns and the stream's
-- owner, with their events in any order.
-- One event is one step: the sends that follow a packet or a tick belong to it. The cipher and the
-- nonces are parameters; a nonce is drawn by the number of datagrams that went out before.
pub mod Awake
pub mod Released
pub mod Held
pub mod Final
pub mod Live
pub mod Owning
pub mod Valid
mod Tests
use rathole_ng.Prelude.{
  ℕ, Bool, true, false, Option, none, some, List, [], ◌∷◌, ◌++◌, map, ◌==◌, if◌then◌else◌, length,
}
use rathole_ng.Net.{SocketAddr}
use rathole_ng.Transport.Packet.{PacketKind}
use rathole_ng.Transport.Reliability.{Reliability}
use rathole_ng.Transport.Stream.{StreamMode, Waker}
use rathole_ng.Transport.Stream
use rathole_ng.Transport.Udp.{
  UdpStreamInner, IncomingPacket, Outgoing, TickResult, handle_incoming, handle_tick,
}
use rathole_ng.Transport.Udp.Io.{
  UdpStream, Written, poll_read, poll_write, poll_shutdown, set_udp_nack_mode, packet_of,
  close_stream,
}
use rathole_ng.Transport.Udp.Datagram.{Cipher, send_packet_raw, send_packet}
use rathole_ng.Transport.Udp.Dispatch.{Listener, stream_ended}

-- The stream, the listener's map where there is one, the datagrams that went out, newest first, each
-- with its destination, the wakers that were woken, and whether the task's loop goes on.
pub record StreamTask : Type 0 where
  pub udp : UdpStream
  pub active_streams : Option Listener
  pub datagrams : List (SocketAddr × List ℕ)
  pub woken : List Waker
  pub running : Bool

-- `UdpStream::new`, for a stream that the listener opened or for one of a client.
unfoldable pub new : ℕ → SocketAddr → ℕ → Option Listener → StreamTask
new stream_id peer_addr now active_streams = record {
  udp = record {
    stream_id = stream_id;
    inner = record {
      peer_addr = peer_addr;
      reliability = record { streams = (stream_id, Stream.new StreamMode.tcp) ∷ [] };
      last_received = now;
      last_sent = now;
      closed = false;
    };
    write_queue = [];
  };
  active_streams = active_streams;
  datagrams = [];
  woken = [];
  running = true;
}

-- For the task: a packet of the queue, `none` when nothing can put one there any more; an item of
-- the writer's channel; a tick; the stream is dropped. For the owner: a read, a write, a shutdown,
-- and the change of the mode.
pub data TaskEvent : Type 0 where
  incoming : Option IncomingPacket → TaskEvent
  write_item tick dropped : TaskEvent
  read : Waker → ℕ → TaskEvent
  write : Waker → List ℕ → TaskEvent
  shutdown udp_mode : TaskEvent

abbrev pub with_inner : StreamTask → UdpStreamInner → StreamTask
with_inner t inner = let u = t.udp in record t { udp = record u { inner = inner } }

abbrev pub with_udp : StreamTask → UdpStream → StreamTask
with_udp t u = record t { udp = u }

abbrev pub listener_ended : ℕ → Option Listener → Option Listener
listener_ended id none = none
listener_ended id (some l) = some (stream_ended id l)

-- What follows the loop.
unfoldable pub end_task : StreamTask → StreamTask
end_task t =
    let id = t.udp.stream_id in
    let (inner, woken) = close_stream id t.udp.inner in
    record (with_inner t inner) {
      active_streams = listener_ended id t.active_streams;
      woken = t.woken ++ woken;
      running = false;
    }

-- A datagram that went out to the peer's address.
abbrev pub went_out : StreamTask → UdpStreamInner → List ℕ → StreamTask
went_out t inner pkt = record (with_inner t inner) {
  datagrams = (inner.peer_addr, pkt) ∷ t.datagrams;
}

module _ (c : Cipher) (nonce : ℕ → List ℕ) where
  -- The loop over `to_send`; an error of the cipher ends the task.
  unfoldable pub send_all : ℕ → List (ℕ × Outgoing) → StreamTask → StreamTask
  unfolding end_task
  send_all now [] t = t
  send_all now ((id, o) ∷ os) t =
      elim (send_packet_raw c now (nonce (length t.datagrams)) t.udp.inner id o.kind o.seq
        (some o.ack) (some o.bits) o.payload) [
          | none ↦ end_task t
          | some (inner, pkt) ↦ send_all now os (went_out t inner pkt)
        ]

  unfoldable pub on_incoming : ℕ → IncomingPacket → StreamTask → StreamTask
  unfolding send_all
  on_incoming now pkt t =
      let (inner, to_send, woken) = handle_incoming now t.udp.inner pkt in
      send_all now (map (λ o. (pkt.header.channel_id, o)) to_send)
        (record (with_inner t inner) { woken = t.woken ++ woken })

  -- An error ends the task but for a close.
  unfoldable pub on_written : ℕ → Written → StreamTask → StreamTask
  unfolding end_task
  on_written now item t =
      let (kind, seq, bytes) = packet_of item in
      elim (send_packet c now (nonce (length t.datagrams)) t.udp.inner t.udp.stream_id kind seq
        bytes) [
          | none ↦ if item.0 == 0 then t else end_task t
          | some (inner, pkt) ↦ went_out t inner pkt
        ]

  unfoldable pub on_tick : ℕ → StreamTask → StreamTask
  unfolding send_all end_task
  on_tick now t =
      let (inner, result) = handle_tick now t.udp.inner in
      elim result [
        | TickResult.ok to_send ↦ send_all now to_send (with_inner t inner)
        | TickResult.err _ ↦ end_task (with_inner t inner)
      ]

  -- The item at the head of the writer's channel; the loop waits while there is none.
  unfoldable pub take_written : ℕ → List Written → StreamTask → StreamTask
  unfolding on_written
  take_written now [] t = t
  take_written now (item ∷ items) t =
      let u = t.udp in on_written now item (with_udp t (record u { write_queue = items }))

  -- One round of the task's loop.
  unfoldable pub select : ℕ → TaskEvent → StreamTask → StreamTask
  unfolding on_incoming on_tick take_written end_task
  select now (TaskEvent.incoming none) t = end_task t
  select now (TaskEvent.incoming (some pkt)) t = on_incoming now pkt t
  select now TaskEvent.write_item t = take_written now t.udp.write_queue t
  select now TaskEvent.tick t = on_tick now t
  select now TaskEvent.dropped t = end_task t
  select now (TaskEvent.read waker remaining) t = t
  select now (TaskEvent.write waker buf) t = t
  select now TaskEvent.shutdown t = t
  select now TaskEvent.udp_mode t = t

  -- What the owner does to the stream.
  unfoldable pub own : ℕ → TaskEvent → UdpStream → UdpStream
  own now (TaskEvent.read waker remaining) u = (poll_read u waker remaining).0
  own now (TaskEvent.write waker buf) u = (poll_write now u waker buf).0
  own now TaskEvent.shutdown u = poll_shutdown u
  own now TaskEvent.udp_mode u = set_udp_nack_mode u
  own now (TaskEvent.incoming pkt) u = u
  own now TaskEvent.write_item u = u
  own now TaskEvent.tick u = u
  own now TaskEvent.dropped u = u

  unfoldable pub step_task : ℕ → TaskEvent → StreamTask → StreamTask
  unfolding select own
  step_task now e t =
      let after = if t.running then select now e t else t in with_udp after (own now e after.udp)

  unfoldable pub run_task : List (ℕ × TaskEvent) → StreamTask → StreamTask
  run_task [] t = t
  run_task ((now, e) ∷ es) t = run_task es (step_task now e t)
