-- ===== src/Transport/Session/Tests.antt =====
-- A session in which the second of two packets arrives first.
use rathole_ng.Prelude.{
  ℕ_discrete, false, ℕ, ◌≤◌, ◌<◌, ◌≡◌, refl, List, [], ◌∷◌, ◌++◌, arith, length, inl, inr,
}
use rathole_ng.Collections.BTreeMap
use rathole_ng.Transport.Packet.{PacketKind}
use rathole_ng.Transport.Stream.{StreamState, StreamMode, add64}
use rathole_ng.Transport.Stream
use rathole_ng.Transport.Stream.Delivery.{upto}
use rathole_ng.Net.{SocketAddr}
use rathole_ng.Collections.HashMap
use rathole_ng.Transport.Udp.Io.{UdpStream, enqueue, write_state, poll_write}
use rathole_ng.Transport.Udp.{Outgoing, react, answer_data}
use rathole_ng.Transport.Stream.{push_data, drain}
use rathole_ng.Transport.Session.{
  End, In, header, Session, go_left, go_right, Reach, start, next, new_end, written, received, read,
  data_packet, write, receive, take_bytes,
}
use rathole_ng.Transport.Session.Unacked.{IsQueued, udp_never_acks}
use rathole_ng.Transport.Session.Delivered.{session_delivers_prefix, session_queue_bound}

abbrev numbers : ℕ → List ℕ
numbers k = k ∷ k ∷ []

abbrev silent : ℕ → List ℕ
silent k = []

abbrev writer_two : End
writer_two = written numbers 6 (written numbers 5 (new_end StreamMode.tcp))

abbrev reader_two : End
reader_two = read 3 (
    received 8 0 (data_packet 1 (numbers 1))
      (received 7 0 (data_packet 2 (numbers 2)) (new_end StreamMode.tcp)))

-- The writer's stream, in the state of its end.
abbrev holder : ℕ → End → UdpStream
holder now e = record {
  stream_id = 4;
  inner = record {
    peer_addr = SocketAddr.v4 (10 ∷ 0 ∷ 0 ∷ 7 ∷ []) 40_000;
    reliability = record { streams = (4, e.state) ∷ [] };
    last_received = now;
    last_sent = now;
    closed = false;
  };
  write_queue = [];
}

abbrev crossed : Session
crossed = record { left = writer_two; right = reader_two }

crossed-Reach : Reach numbers silent StreamMode.tcp StreamMode.tcp crossed
unfolding Stream.new enqueue BTreeMap.insert poll_write write_state HashMap.get ℕ_discrete
crossed-Reach =
    next
      (next
        (next
          (next
            (next start (
              go_left (
                write 5 (holder 5 (new_end StreamMode.tcp)) 0 2 (numbers 1) refl refl refl
                  (omega arith))))
            (go_left (
              write 6 (holder 6 (written numbers 5 (new_end StreamMode.tcp))) 0 2 (numbers 2) refl
                refl refl (omega arith))))
          (go_right (receive 7 0 (data_packet 2 (numbers 2)) (inl refl))))
        (go_right (receive 8 0 (data_packet 1 (numbers 1)) (inr (inl refl)))))
      (go_right (take_bytes 3))

crossed_taken : crossed.right.taken ≡ 1 ∷ 1 ∷ 2 ∷ []
unfolding Stream.new enqueue BTreeMap.insert react push_data drain answer_data BTreeMap.get
    BTreeMap.remove BTreeMap.contains_key
crossed_taken = refl

session_delivers_prefix_example :
    ((k : ℕ) × (crossed.right.taken ++ crossed.right.state.read_buf_bytes ≡ upto numbers k)
      × (k < crossed.left.state.next_write_seq))
    × ((k : ℕ) × (crossed.left.taken ++ crossed.left.state.read_buf_bytes ≡ upto silent k)
        × (k < crossed.right.state.next_write_seq))
session_delivers_prefix_example =
    session_delivers_prefix numbers silent StreamMode.tcp StreamMode.tcp crossed crossed-Reach

session_queue_bound_example :
    (length crossed.left.state.write_queue ≤ 1024) × (length crossed.right.state.write_queue ≤ 1024)
session_queue_bound_example =
    session_queue_bound numbers silent StreamMode.tcp StreamMode.tcp crossed crossed-Reach

-- A reader in UDP mode that gets the third packet first, and asks for the two before it.
abbrev behind : StreamState
behind = Stream.new StreamMode.udp

abbrev asks : Outgoing
asks = record { kind = PacketKind.nack; seq = 1; ack = 2; bits = 0; payload = [] }

behind-asks :
    In asks
      (react 7 PacketKind.stream (header 0 (data_packet 3 (numbers 3))) (numbers 3) behind).to_send
unfolding Stream.new react push_data drain answer_data BTreeMap.get BTreeMap.insert BTreeMap.remove
    BTreeMap.contains_key
behind-asks = inl refl

two-IsQueued : IsQueued 2 (numbers 2) writer_two.state.write_queue
unfolding Stream.new enqueue BTreeMap.insert BTreeMap.get
two-IsQueued = (record { payload = numbers 2; sent_at = 6; retransmits = 0 }, refl, refl)

udp_never_acks_example :
    IsQueued 2
      (numbers 2)
      (react 9 PacketKind.nack (header 0 asks) [] writer_two.state).state.write_queue
unfolding Stream.new
udp_never_acks_example =
    udp_never_acks 7 9 0 2 PacketKind.stream (header 0 (data_packet 3 (numbers 3))) (numbers 3)
      (numbers 2) behind writer_two.state asks refl behind-asks two-IsQueued
