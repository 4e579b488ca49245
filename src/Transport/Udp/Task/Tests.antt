-- ===== src/Transport/Udp/Task/Tests.antt =====
-- A stream that a peer opens, writes to and closes, while its owner reads and writes.
use rathole_ng.Prelude.{
  ℕ, ◌+◌, ◌≤◌, length, ◌≡◌, ◌≢◌, refl, true, none, some, List, [], ◌∷◌, ◌++◌, arith, replicate,
  ℕ_discrete,
}
use rathole_ng.Collections.HashMap
use rathole_ng.Transport.Stream
use rathole_ng.Net.{SocketAddr}
use rathole_ng.Transport.Packet.{PacketKind}
use rathole_ng.Transport.Udp.Io.{Poll, IoError, poll_read, read_state, poll_write, poll_shutdown}
use rathole_ng.Transport.Udp.Io.Writing.{state_of}
use rathole_ng.Transport.Udp.Datagram.{Cipher}
use rathole_ng.Transport.Udp.Task.{
  StreamTask, TaskEvent, with_udp, new, select, own, step_task, run_task,
}
use rathole_ng.Transport.Udp.Task.Awake.{IsReleased, sleepers}
use rathole_ng.Transport.Udp.Task.Released.{closed_stream_releases}
use rathole_ng.Transport.Udp.Task.Held.{AreHeld}
use rathole_ng.Transport.Udp.Task.Final.{write_items, poll_shutdown_is_final}
use rathole_ng.Transport.Udp.Task.Valid.{AreValid, new_stream_stays_valid}

abbrev peer : SocketAddr
peer = SocketAddr.v4 (10 ∷ 0 ∷ 0 ∷ 7 ∷ []) 40_000

-- A cipher that adds a tag and hides nothing.
abbrev plain : Cipher
plain = record {
  encrypt = λ nonce bytes. some (bytes ++ replicate 16 0);
  decrypt = λ nonce bytes. some bytes;
}

abbrev draw : ℕ → List ℕ
draw n = replicate 12 n

abbrev packet : PacketKind → ℕ → List ℕ → TaskEvent
packet kind seq bytes = TaskEvent.incoming (
    some (record {
      header = record { channel_id = 9; packet_kind = kind; seq = seq; ack = 0; ack_bits = 0 };
      payload = bytes;
      src = peer;
    }))

abbrev events : List (ℕ × TaskEvent)
events =
    (1, packet PacketKind.stream_open 0 [])
    ∷ (2, TaskEvent.read 5 100)
    ∷ (3, packet PacketKind.stream 1 (65 ∷ []))
    ∷ (4, TaskEvent.write 6 (66 ∷ []))
    ∷ (5, TaskEvent.write_item)
    ∷ (6, TaskEvent.tick)
    ∷ (7, packet PacketKind.stream_close 0 [])
    ∷ []

abbrev after : StreamTask
after = run_task plain draw events (new 9 peer 0 none)

new_stream_stays_valid_example : AreValid after.udp.inner.reliability.streams
new_stream_stays_valid_example =
    new_stream_stays_valid plain draw 9 peer 0 none events (omega arith) (omega arith)

-- A reader that waits when the owner shuts the stream down.
abbrev ending : List (ℕ × TaskEvent)
ending = (2, TaskEvent.read 5 100) ∷ (3, TaskEvent.shutdown) ∷ []

abbrev ended : StreamTask
ended = run_task plain draw ending (new 9 peer 0 none)

ended_is_closed : ended.udp.inner.closed ≡ true
unfolding run_task step_task select own new poll_read read_state poll_shutdown HashMap.get
    HashMap.insert ℕ_discrete Stream.new
ended_is_closed = refl

closed_stream_releases_example :
    ((step_task plain draw 8 TaskEvent.tick ended).woken
      ≡ ended.woken ++ sleepers (state_of ended.udp))
    × IsReleased (step_task plain draw 8 TaskEvent.tick ended).udp
    × ((waker remaining : ℕ)
        → (poll_read (step_task plain draw 8 TaskEvent.tick ended).udp waker remaining).1
          ≢ Poll.pending)
    × ((at waker : ℕ) (buf : List ℕ)
        → poll_write at (step_task plain draw 8 TaskEvent.tick ended).udp waker buf
          ≡ ((step_task plain draw 8 TaskEvent.tick ended).udp, Poll.failed IoError.write_zero))
closed_stream_releases_example =
    closed_stream_releases plain draw 9 peer 0 none ending 8 ended_is_closed

-- The peer's acknowledgement, and more, of a stream whose owner has shut it down with a byte queued.
abbrev shut_down : StreamTask
shut_down = run_task plain draw ((1, TaskEvent.write 6 (66 ∷ [])) ∷ []) (new 9 peer 0 none)

abbrev later : List (ℕ × TaskEvent)
later =
    (2, packet PacketKind.sack 0 [])
    ∷ (3, packet PacketKind.stream 1 (65 ∷ []))
    ∷ (4, TaskEvent.write_item)
    ∷ (5, TaskEvent.read 5 100)
    ∷ (6, TaskEvent.udp_mode)
    ∷ (7, TaskEvent.tick)
    ∷ []

poll_shutdown_is_final_example :
    let final = run_task plain draw later (with_udp shut_down (poll_shutdown shut_down.udp)) in
    (final.udp.inner.closed ≡ true)
    × AreHeld shut_down.udp.inner.reliability final.udp.inner.reliability
    × (length final.datagrams ≤ write_items later + length shut_down.datagrams)
poll_shutdown_is_final_example = poll_shutdown_is_final plain draw later shut_down
