-- ===== src/Transport/Stream/Nack.antt =====
-- `handle_nack`: what a request for a range is answered with.
use rathole_ng.Prelude.{ℕ, zero, suc, ◌+◌, ◌-◌, ◌≡◌, ◌&&◌, List, arith, ltb, leb}
use rathole_ng.Collections.BTreeMap
use rathole_ng.Transport.Stream.{StreamState, SentPacket, is_udp, collect_range, handle_nack}
use rathole_ng.Transport.Stream.Delivery.{member}
use rathole_ng.Transport.Stream.Acks.{write_queue-wake_writer}

member-collect_range :
    (queue : List (ℕ × SentPacket)) (start n k : ℕ)
    → member k (collect_range queue start n)
      ≡ (BTreeMap.contains_key k queue && (leb start k && ltb k (start + n)))
unfolding collect_range member
member-collect_range queue start zero k = ground arith
member-collect_range queue start (suc n) k =
    ground (arith, member-collect_range queue (start + 1) n k)

-- A UDP stream sends again exactly the packets of the range that it still queues, and a TCP
-- stream sends nothing; the queue stays as it is.
pub handle_nack_answers :
    (s : StreamState) (start end k : ℕ)
    → (member k (handle_nack s start end).1
        ≡ (is_udp s.mode && (BTreeMap.contains_key k s.write_queue && (leb start k && leb k end))))
      × ((handle_nack s start end).0.write_queue ≡ s.write_queue)
unfolding handle_nack member
handle_nack_answers s start end k = (
  ground (arith, member-collect_range s.write_queue start (end + 1 - start) k),
  write_queue-wake_writer s,
)
