-- ===== src/Transport/Session/Sending.antt =====
-- What an end queues and has sent, through all its moves.
use rathole_ng.Prelude.{
  ℕ, ◌-◌, ◌≤◌, ◌<◌, ◌^◌, ◌≡◌, refl, Bool, none, some, Option, subst, ◌∙◌, List, arith, length, ◌==◌,
  inl, inr, Bool-cases,
}
use rathole_ng.Collections.BTreeMap
use rathole_ng.Collections.BTreeMap.{Above, Below}
use rathole_ng.Transport.Packet.{PacketKind, TransportPacketHeader}
use rathole_ng.Transport.Stream.{
  StreamState, SentPacket, Waker, is_udp, is_unacked, wake_writer, handle_ack, handle_nack,
  push_data,
}
use rathole_ng.Transport.Stream.Receive.{push_data-SameSender}
use rathole_ng.Transport.Reliability.{is_recent, tick_stream}
use rathole_ng.Transport.Udp.{Outgoing, answer_data, resend, retransmit, react}
use rathole_ng.Transport.Udp.Invariant.{
  IsStream, IsStream-of_queue, handle_ack-IsStream, handle_nack-IsStream,
}
use rathole_ng.Transport.Session.{retransmitted}
use rathole_ng.Transport.Session.Queue.{
  Holds, AreCarried, retain-Holds, resend_carried, length-resend, retransmit_queue_carried,
}

wake_writer_queue :
    (s : StreamState)
    → ((wake_writer s).0.next_write_seq ≡ s.next_write_seq)
      × ((wake_writer s).0.write_queue ≡ s.write_queue)
unfolding wake_writer
wake_writer_queue s = ground arith

handle_ack_queue :
    (s : StreamState) (ack bits : ℕ)
    → ((handle_ack s ack bits).0.next_write_seq ≡ s.next_write_seq)
      × ((handle_ack s ack bits).0.write_queue
          ≡ BTreeMap.retain (λ seq _. is_unacked ack bits seq) s.write_queue)
unfolding handle_ack
handle_ack_queue s ack bits =
    wake_writer_queue
      (record s { write_queue = BTreeMap.retain (λ seq _. is_unacked ack bits seq) s.write_queue })

pub handle_nack_queue :
    (s : StreamState) (start end : ℕ)
    → ((handle_nack s start end).0.next_write_seq ≡ s.next_write_seq)
      × ((handle_nack s start end).0.write_queue ≡ s.write_queue)
unfolding handle_nack
handle_nack_queue s start end = wake_writer_queue s

module _ (chunk : ℕ → List ℕ) where
  -- The queue and the packets have the chunks that were written, and the queue keeps its bound.
  pub record IsWriter (s : StreamState) : Type 0 where
    pub stream : IsStream s
    pub room : s.next_write_seq < 2 ^ 64 - 1
    pub holds : Holds chunk s.write_queue
    pub few : length s.write_queue ≤ 1024

  -- What a packet and the timer leave of a writer: its next number, its bytes and its bound; they
  -- send only what was written.
  abbrev pub Keeps : StreamState → StreamState → List Outgoing → Type 0
  Keeps s t os =
      (t.next_write_seq ≡ s.next_write_seq)
      × Holds chunk t.write_queue
      × (length t.write_queue ≤ 1024)
      × AreCarried chunk s.next_write_seq os

  answer_data-AreCarried :
      (n : ℕ) (nack : Option (ℕ × ℕ)) (s : StreamState) → AreCarried chunk n (answer_data nack s)
  unfolding answer_data
  answer_data-AreCarried n (some (a, b)) s = ((λ e. cc), tt)
  answer_data-AreCarried n none s = elim (Bool-cases (is_udp s.mode)) [
    | inl e ↦ rw e tt
    | inr e ↦ rw e ((λ x. cc), tt)
  ]

  -- The end of the cases for an acknowledgement and for a nack, before the stream is known valid.
  retransmit_carried :
      (now : ℕ) (t : StreamState × List ℕ × List Waker)
      → Above 1 t.0.write_queue
      → Below t.0.next_write_seq t.0.write_queue
      → Holds chunk t.0.write_queue
      → length t.0.write_queue ≤ 1024
      → let r = retransmit now t in
        (r.state.next_write_seq ≡ t.0.next_write_seq)
        × Holds chunk r.state.write_queue
        × (length r.state.write_queue ≤ 1024)
        × AreCarried chunk t.0.next_write_seq r.to_send
  unfolding retransmit
  retransmit_carried now (s, wanted, woken) a b h few =
      let c = resend_carried chunk now s.next_write_seq wanted s.write_queue a b h in
      let l = length-resend now wanted s.write_queue a in
      elim (Bool-cases (length (resend now wanted s.write_queue).0 == 0)) [
        | inl e ↦ rw e (refl, c.0, omega (arith, l), c.1)
        | inr e ↦ rw e (refl, c.0, omega (arith, l), c.1)
      ]

  -- Both acknowledgements leave a part of the queue.
  answered_carried :
      (now : ℕ) (s : StreamState) (t : StreamState × List ℕ × List Waker)
      → IsStream t.0
      → t.0.next_write_seq ≡ s.next_write_seq
      → Holds chunk t.0.write_queue
      → length t.0.write_queue ≤ 1024
      → Keeps s (retransmit now t).state (retransmit now t).to_send
  answered_carried now s t v e h few =
      let r = retransmit_carried now t v.sends.ordered v.sends.sent h few in
      (r.0 ∙ e, r.1, r.2, subst (λ n. AreCarried chunk n (retransmit now t).to_send) e r.3)

  pub react-Keeps :
      (now : ℕ) (kind : PacketKind) (h : TransportPacketHeader) (bytes : List ℕ) (s : StreamState)
      → IsWriter s
      → let r = react now kind h bytes s in Keeps s r.state r.to_send
  unfolding react
  react-Keeps now PacketKind.stream_open h bytes s w = (refl, w.holds, w.few, ((λ e. cc), tt))
  react-Keeps now PacketKind.stream_open_ack h bytes s w = (refl, w.holds, w.few, tt)
  react-Keeps now PacketKind.stream_close h bytes s w = (refl, w.holds, w.few, tt)
  react-Keeps now PacketKind.stream h bytes s w =
      let t = push_data s h.seq bytes in
      let same = push_data-SameSender s h.seq bytes in
      (
        same.same_cursor,
        rw same.same_queue w.holds,
        rw same.same_queue w.few,
        answer_data-AreCarried s.next_write_seq t.1 t.0,
      )
  react-Keeps now PacketKind.sack h bytes s w =
      let q = handle_ack_queue s h.ack h.ack_bits in
      let keep : ℕ → SentPacket → Bool = λ seq _. is_unacked h.ack h.ack_bits seq in
      answered_carried now s (handle_ack s h.ack h.ack_bits)
        (handle_ack-IsStream s h.ack h.ack_bits w.stream) q.0
        (rw q.1 (retain-Holds chunk keep s.write_queue w.holds))
        (rw q.1 (omega (arith, BTreeMap.length-retain-le keep s.write_queue, w.few)))
  react-Keeps now PacketKind.nack h bytes s w =
      let q = handle_nack_queue s h.seq h.ack in
      answered_carried now s (handle_nack s h.seq h.ack)
        (handle_nack-IsStream s h.seq h.ack w.stream) q.0 (rw q.1 w.holds) (rw q.1 w.few)
  react-Keeps now PacketKind.keepalive_ping h bytes s w = (refl, w.holds, w.few, ((λ e. cc), tt))
  react-Keeps now PacketKind.keepalive_pong h bytes s w = (refl, w.holds, w.few, tt)
  react-Keeps now PacketKind.service h bytes s w = (refl, w.holds, w.few, tt)

  pub tick-Keeps :
      (now id : ℕ) (s : StreamState)
      → IsWriter s
      → let t = tick_stream now id s in IsStream t.0 × Keeps s t.0 (retransmitted t.1)
  unfolding tick_stream
  tick-Keeps now id s w =
      let keep : ℕ → SentPacket → Bool = λ _ p. is_recent now p in
      let q = s.write_queue in
      let (a, b, h, c, l) =
        retransmit_queue_carried chunk now id 1 s.next_write_seq q (omega arith)
          w.stream.sends.ordered w.stream.sends.sent w.holds in
      elim (Bool-cases (is_udp s.mode)) [
        | inl e ↦ rw e (
          IsStream-of_queue _ w.stream refl refl refl (
            BTreeMap.retain-Above keep 1 q w.stream.sends.ordered,
            BTreeMap.retain-Below keep s.next_write_seq q w.stream.sends.sent,
          ),
          (
            refl,
            retain-Holds chunk keep q w.holds,
            omega (arith, BTreeMap.length-retain-le keep q, w.few),
            tt,
          ),
        )
        | inr e ↦ rw e (
          IsStream-of_queue _ w.stream refl refl refl (a, b),
          (refl, h, omega (arith, l, w.few), c),
        )
      ]
