-- ===== src/Transport/Stream/Tests.antt =====
-- Streams at concrete inputs: a receiver that lacks two packets, and a sender that waits for both.
use rathole_ng.Prelude.{
  ℕ, ◌+◌, ◌-◌, ◌≤◌, ◌<◌, ◌≡◌, true, false, not, ◌&&◌, none, some, List, [], ◌∷◌, arith, ltb,
  if◌then◌else◌,
}
use rathole_ng.Collections.BTreeMap
use rathole_ng.Transport.Stream.{
  SentPacket, StreamMode, StreamState, new, build_ack, handle_ack, push_data, drain,
}
use rathole_ng.Transport.Stream.Drain.{has}
use rathole_ng.Transport.Stream.Receive.{new-IsReceiver}
use rathole_ng.Transport.Stream.Delivery.{receive, receive_in_order, upto, member}
use rathole_ng.Transport.Stream.Acks.{IsSender, handle_ack-build_ack}

abbrev fresh : StreamState
fresh = new StreamMode.udp

-- The packet 3 came first.
abbrev receiver : StreamState
receiver = (push_data fresh 3 (7 ∷ [])).0

asked_again : (push_data fresh 3 (7 ∷ [])).1 ≡ some (1, 2)
unfolding push_data new BTreeMap.contains_key BTreeMap.insert drain BTreeMap.get
asked_again = ground arith

abbrev chunk : ℕ → List ℕ
chunk k = k ∷ k ∷ []

abbrev arrivals : List ℕ
arrivals = 2 ∷ 1 ∷ 2 ∷ 4 ∷ []

receive_in_order_example :
    let s = receive chunk arrivals (new StreamMode.tcp) in
    (s.read_buf_bytes ≡ upto chunk (s.next_read_seq - 1))
    × ((k : ℕ) → 1 ≤ k → k < s.next_read_seq → member k arrivals ≡ true)
    × (member s.next_read_seq arrivals ≡ false)
receive_in_order_example =
    receive_in_order chunk StreamMode.tcp arrivals
      (omega arith, (omega arith, (omega arith, (omega arith, tt))))

abbrev packet : SentPacket
packet = record { payload = 7 ∷ []; sent_at = 0; retransmits = 0 }

abbrev sender : StreamState
sender = record {
  mode = StreamMode.udp;
  established = true;
  next_write_seq = 3;
  next_read_seq = 1;
  write_queue = (1, packet) ∷ (2, packet) ∷ [];
  read_buffer = [];
  read_buf_bytes = [];
  read_waker = none;
  write_waker = some 8;
}

sender-IsSender : IsSender sender
sender-IsSender = record {
  cursor_u64 = omega arith;
  ordered = (omega arith, (omega arith, tt));
  sent = (omega arith, (omega arith, tt));
}

handle_ack-build_ack_example :
    let result = handle_ack sender (build_ack fresh).0 (build_ack fresh).1 in
    (BTreeMap.get 2 result.0.write_queue ≡ (
      if has fresh 2 && ltb 2 (fresh.next_read_seq + 64)
      then none
      else BTreeMap.get 2 sender.write_queue))
    × (member 2 result.1 ≡ (
        BTreeMap.contains_key 2 sender.write_queue
        && (not (has fresh 2) && ltb 2 (fresh.next_read_seq + 64))))
unfolding new
handle_ack-build_ack_example =
    handle_ack-build_ack sender fresh 2 sender-IsSender (new-IsReceiver StreamMode.udp)
      (omega arith)
