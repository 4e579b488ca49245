-- ===== src/Transport/Udp/Invariant.antt =====
-- The invariant of a stream, and that every packet and every tick keeps it.
use rathole_ng.Prelude.{
  ℕ, ◌-◌, ◌≤◌, ◌<◌, ◌^◌, ◌≡◌, refl, some, List, [], ◌∷◌, arith, ltb, ◌==◌, length, inl, inr,
  Option-cases, Bool-cases,
}
use rathole_ng.Collections.BTreeMap
use rathole_ng.Collections.BTreeMap.{Above, Below}
use rathole_ng.Transport.Packet.{PacketKind, TransportPacketHeader}
use rathole_ng.Transport.Stream.{
  StreamState, StreamMode, SentPacket, Waker, wake_writer, handle_ack, handle_nack, is_unacked,
  push_data,
}
use rathole_ng.Transport.Stream
use rathole_ng.Transport.Stream.Receive.{
  IsReceiver, new-IsReceiver, push_data-IsReceiver, push_data-SameSender,
}
use rathole_ng.Transport.Stream.Acks.{IsSender}
use rathole_ng.Transport.Udp.{resend, retransmit, react}

-- Both halves of a stream are valid.
pub record IsStream (s : StreamState) : Type 0 where
  pub receives : IsReceiver s
  pub sends : IsSender s
  pub writes_from_one : 1 ≤ s.next_write_seq

pub new-IsStream : (mode : StreamMode) → IsStream (Stream.new mode)
unfolding Stream.new
new-IsStream mode = record {
  receives = new-IsReceiver mode;
  sends = record { cursor_u64 = omega arith; ordered = tt; sent = tt };
  writes_from_one = omega arith;
}

module _ (now : ℕ) where
  resend_queue :
      (bound : ℕ) (ks : List ℕ) (queue : List (ℕ × SentPacket))
      → Above 1 queue
      → Below bound queue
      → Above 1 (resend now ks queue).0 × Below bound (resend now ks queue).0
  unfolding resend
  resend_queue bound [] queue a b = (a, b)
  resend_queue bound (k ∷ ks) queue a b = elim (Option-cases (BTreeMap.get k queue)) [
    | inl e ↦ rw (e, resend) (resend_queue bound ks queue a b)
    | inr (p, e) ↦
        rw (e, resend)
          (resend_queue bound ks (BTreeMap.insert k (record p { sent_at = now }) queue)
            (BTreeMap.insert-Above 1 k _ queue (one_le k p queue e a) a)
            (BTreeMap.insert-Below bound k _ queue (BTreeMap.get-lt bound k p queue b e) b))
  ]
    where
      one_le :
          (k : ℕ) (p : SentPacket) (q : List (ℕ × SentPacket))
          → BTreeMap.get k q ≡ some p
          → Above 1 q
          → 1 ≤ k
      one_le k p q e a = ground (arith, BTreeMap.get_below 1 k q a)

-- A state with the same cursors and buffer, and a queue in order below the cursor.
pub IsStream-of_queue :
    {s : StreamState} (t : StreamState)
    → IsStream s
    → t.next_read_seq ≡ s.next_read_seq
    → t.read_buffer ≡ s.read_buffer
    → t.next_write_seq ≡ s.next_write_seq
    → Above 1 t.write_queue × Below s.next_write_seq t.write_queue
    → IsStream t
IsStream-of_queue t h cursor buffer writes (a, b) = record {
  receives = record {
    from_one = rw cursor h.receives.from_one;
    cursor_u64 = rw cursor h.receives.cursor_u64;
    ahead = rw (cursor, buffer) h.receives.ahead;
    bounded = rw buffer h.receives.bounded;
  };
  sends = record { cursor_u64 = rw writes h.sends.cursor_u64; ordered = a; sent = rw writes b };
  writes_from_one = rw writes h.writes_from_one;
}

-- So is a state that differs in its flags and wakers only.
pub IsStream-of_same :
    {s : StreamState} (t : StreamState)
    → IsStream s
    → t.next_read_seq ≡ s.next_read_seq
    → t.read_buffer ≡ s.read_buffer
    → t.next_write_seq ≡ s.next_write_seq
    → t.write_queue ≡ s.write_queue
    → IsStream t
IsStream-of_same t h cursor buffer writes queue =
    IsStream-of_queue t h cursor buffer writes (rw queue (h.sends.ordered, h.sends.sent))

retransmit-IsStream :
    (now : ℕ) (t : StreamState × List ℕ × List Waker)
    → IsStream t.0
    → IsStream (retransmit now t).state
unfolding retransmit
retransmit-IsStream now (s, wanted, woken) h =
    let q = resend_queue now s.next_write_seq wanted s.write_queue h.sends.ordered h.sends.sent in
    elim (Bool-cases (length (resend now wanted s.write_queue).0 == 0)) [
      | inl e ↦ rw e (IsStream-of_queue _ h refl refl refl q)
      | inr e ↦ rw e (IsStream-of_queue _ h refl refl refl q)
    ]

wake_writer-IsStream : (s : StreamState) → IsStream s → IsStream (wake_writer s).0
unfolding wake_writer
wake_writer-IsStream s h = elim (Bool-cases (ltb (length s.write_queue) 1024)) [
  | inl e ↦ rw e (IsStream-of_same _ h refl refl refl refl)
  | inr e ↦ rw e h
]

pub handle_ack-IsStream :
    (s : StreamState) (ack ack_bits : ℕ) → IsStream s → IsStream (handle_ack s ack ack_bits).0
unfolding handle_ack
handle_ack-IsStream s ack ack_bits h = wake_writer-IsStream _ (
    IsStream-of_queue _ h refl refl refl (
      BTreeMap.retain-Above (λ seq _. is_unacked ack ack_bits seq) 1 s.write_queue h.sends.ordered,
      BTreeMap.retain-Below (λ seq _. is_unacked ack ack_bits seq) s.next_write_seq s.write_queue
          h.sends.sent,
    ))

pub handle_nack-IsStream :
    (s : StreamState) (start end : ℕ) → IsStream s → IsStream (handle_nack s start end).0
unfolding handle_nack
handle_nack-IsStream s start end h = wake_writer-IsStream s h

push_data-IsStream :
    (s : StreamState) (seq : ℕ) (bytes : List ℕ)
    → IsStream s
    → seq < 2 ^ 64 - 1
    → IsStream (push_data s seq bytes).0
push_data-IsStream s seq bytes h lt =
    let same = push_data-SameSender s seq bytes in
    record {
      receives = push_data-IsReceiver s seq bytes h.receives lt;
      sends = record {
        cursor_u64 = rw same.same_cursor h.sends.cursor_u64;
        ordered = rw same.same_queue h.sends.ordered;
        sent = rw (same.same_cursor, same.same_queue) h.sends.sent;
      };
      writes_from_one = rw same.same_cursor h.writes_from_one;
    }

-- Every packet, of any kind and with any fields, keeps the stream valid; only the number of a data
-- packet has to stay below the last one of a `u64`.
pub react-IsStream :
    (now : ℕ) (kind : PacketKind) (h : TransportPacketHeader) (bytes : List ℕ) (s : StreamState)
    → IsStream s
    → (kind ≡ PacketKind.stream → h.seq < 2 ^ 64 - 1)
    → IsStream (react now kind h bytes s).state
unfolding react
react-IsStream now PacketKind.stream_open h bytes s v lt = IsStream-of_same _ v refl refl refl refl
react-IsStream now PacketKind.stream_open_ack h bytes s v lt =
    IsStream-of_same _ v refl refl refl refl
react-IsStream now PacketKind.stream_close h bytes s v lt = IsStream-of_same _ v refl refl refl refl
react-IsStream now PacketKind.stream h bytes s v lt =
    IsStream-of_same _ (push_data-IsStream s h.seq bytes v (lt refl)) refl refl refl refl
react-IsStream now PacketKind.sack h bytes s v lt =
    retransmit-IsStream now (handle_ack s h.ack h.ack_bits)
      (handle_ack-IsStream s h.ack h.ack_bits v)
react-IsStream now PacketKind.nack h bytes s v lt =
    retransmit-IsStream now (handle_nack s h.seq h.ack) (handle_nack-IsStream s h.seq h.ack v)
react-IsStream now PacketKind.keepalive_ping h bytes s v lt = v
react-IsStream now PacketKind.keepalive_pong h bytes s v lt = v
react-IsStream now PacketKind.service h bytes s v lt = v
