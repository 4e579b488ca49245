-- ===== src/Transport/Udp/Acking.antt =====
-- Which packets are acknowledged, and what the acknowledgement does at the other end.
use rathole_ng.Prelude.{
  ℕ, ◌+◌, ◌-◌, ◌≤◌, ◌<◌, ◌^◌, ◌≡◌, refl, ◌∙◌, true, Option, none, some, List, [], ◌∷◌, arith, ◌==◌,
  length, inl, inr, Option-cases, Bool-cases,
}
use rathole_ng.Collections.BTreeMap
use rathole_ng.Transport.Packet.{PacketKind, TransportPacketHeader}
use rathole_ng.Transport.Stream.{
  StreamState, StreamMode, SentPacket, Waker, build_ack, handle_ack, push_data,
}
use rathole_ng.Transport.Stream.Drain.{has}
use rathole_ng.Transport.Stream.Receive.{
  IsReceiver, push_data-IsReceiver, push_data-SameSender, has-push_data, push_cases,
}
use rathole_ng.Transport.Stream.Acks.{IsSender, handle_ack-build_ack}
use rathole_ng.Transport.Udp.{Outgoing, answer_data, resend, retransmit, react}

-- A packet that is gone from the queue is not put back.
get-resend-none :
    (now k : ℕ) (ks : List ℕ) (queue : List (ℕ × SentPacket))
    → BTreeMap.get k queue ≡ none
    → BTreeMap.get k (resend now ks queue).0 ≡ none
unfolding resend
get-resend-none now k [] queue e = e
get-resend-none now k (j ∷ ks) queue e = elim (Option-cases (BTreeMap.get j queue)) [
  | inl x ↦ rw (x, resend) (get-resend-none now k ks queue e)
  | inr (p, x) ↦
      rw (x, resend)
        (get-resend-none now k ks (BTreeMap.insert j (record p { sent_at = now }) queue)
          (still j p x))
]
  where
    still :
        (j : ℕ) (p : SentPacket)
        → BTreeMap.get j queue ≡ some p
        → BTreeMap.get k (BTreeMap.insert j (record p { sent_at = now }) queue) ≡ none
    still j p x = ground (arith, BTreeMap.get-insert j k (record p { sent_at = now }) queue)

get-retransmit-none :
    (now k : ℕ) (t : StreamState × List ℕ × List Waker)
    → BTreeMap.get k t.0.write_queue ≡ none
    → BTreeMap.get k (retransmit now t).state.write_queue ≡ none
unfolding retransmit
get-retransmit-none now k (s, wanted, woken) e =
    elim (Bool-cases (length (resend now wanted s.write_queue).0 == 0)) [
      | inl x ↦ rw x (get-resend-none now k wanted s.write_queue e)
      | inr x ↦ rw x (get-resend-none now k wanted s.write_queue e)
    ]

push_data_tcp :
    (r : StreamState) (seq : ℕ) (bytes : List ℕ)
    → r.mode ≡ StreamMode.tcp
    → (push_data r seq bytes).1 ≡ none
push_data_tcp r seq bytes tcp =
    push_cases (λ t. t.1 ≡ none) r seq bytes (λ old. refl) (λ fresh. rw tcp refl)

-- The acknowledgement of the receiver's state.
abbrev sack_of : StreamState → Outgoing
sack_of s = record {
  kind = PacketKind.sack;
  seq = 0;
  ack = (build_ack s).0;
  bits = (build_ack s).1;
  payload = [];
}

answer_data_tcp :
    (nack : Option (ℕ × ℕ)) (s : StreamState)
    → nack ≡ none
    → s.mode ≡ StreamMode.tcp
    → answer_data nack s ≡ sack_of s ∷ []
unfolding answer_data
answer_data_tcp nack s e tcp = rw (e, tcp) refl

acked_is_gone :
    (t r : StreamState) (k : ℕ)
    → IsSender t
    → IsReceiver r
    → r.next_read_seq + 64 ≤ 2 ^ 64
    → has r k ≡ true
    → k < r.next_read_seq + 64
    → BTreeMap.get k (handle_ack t (build_ack r).0 (build_ack r).1).0.write_queue ≡ none
acked_is_gone t r k ts rs room held window =
    ground (arith, (handle_ack-build_ack t r k ts rs room).0)

-- A stream in TCP mode answers a data packet by one acknowledgement, and a sender that gets that
-- answer no longer queues the packet, if it lies in the window.
pub data_is_acked :
    (now later : ℕ) (t r : StreamState) (h g : TransportPacketHeader) (bytes : List ℕ)
    → IsSender t
    → IsReceiver r
    → r.mode ≡ StreamMode.tcp
    → h.seq < 2 ^ 64 - 1
    → (react now PacketKind.stream h bytes r).state.next_read_seq + 64 ≤ 2 ^ 64
    → h.seq < (react now PacketKind.stream h bytes r).state.next_read_seq + 64
    → (a : Outgoing) × ((react now PacketKind.stream h bytes r).to_send ≡ a ∷ [])
      × (a.kind ≡ PacketKind.sack)
      × (let answer = record g { ack = a.ack; ack_bits = a.bits } in
          BTreeMap.get h.seq (react later PacketKind.sack answer [] t).state.write_queue ≡ none)
unfolding react
data_is_acked now later t r h g bytes ts rs tcp lt room window =
    let r' = (push_data r h.seq bytes).0 in
    let same = push_data-SameSender r h.seq bytes in
    let held : has r' h.seq ≡ true = ground (arith, has-push_data r h.seq bytes h.seq rs lt) in
    (
      sack_of r',
      answer_data_tcp _ r' (push_data_tcp r h.seq bytes tcp) (same.same_mode ∙ tcp),
      refl,
      get-retransmit-none later h.seq _
          (acked_is_gone t r' h.seq ts (push_data-IsReceiver r h.seq bytes rs lt) room held window),
    )
