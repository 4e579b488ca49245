-- ===== src/Transport/Session/Unacked.antt =====
-- src/transport/reliability.rs: what the answers of a stream in UDP mode leave in its peer's queue.
use rathole_ng.Prelude.{
  ℕ, sym, subst, ℕ_discrete, ◌≡◌, ◌≢◌, refl, ◌∙◌, Option, none, some, List, [], ◌∷◌, arith, ◌==◌,
  length, inl, inr, Option-cases, Bool-cases,
}
use rathole_ng.Collections.BTreeMap
use rathole_ng.Transport.Packet.{PacketKind, TransportPacketHeader}
use rathole_ng.Transport.Stream.{StreamState, StreamMode, SentPacket, Waker, handle_nack}
use rathole_ng.Transport.Stream.Receive.{push_data-SameSender}
use rathole_ng.Transport.Udp.{Outgoing, answer_data, resend, retransmit, react}
use rathole_ng.Transport.Session.{In, header}
use rathole_ng.Transport.Session.Sending.{handle_nack_queue}

abbrev NoSack : List Outgoing → Type 0
NoSack [] = Unit
NoSack (o ∷ os) = (o.kind ≢ PacketKind.sack) × NoSack os

NoSack-resend :
    (now : ℕ) (ks : List ℕ) (queue : List (ℕ × SentPacket)) → NoSack (resend now ks queue).1
unfolding resend
NoSack-resend now [] queue = tt
NoSack-resend now (k ∷ ks) queue = elim (Option-cases (BTreeMap.get k queue)) [
  | inl e ↦ rw (e, resend) (NoSack-resend now ks queue)
  | inr (p, e) ↦
      rw (e, resend)
        ((λ x. cc), NoSack-resend now ks (BTreeMap.insert k (record p { sent_at = now }) queue))
]

NoSack-retransmit :
    (now : ℕ) (t : StreamState × List ℕ × List Waker) → NoSack (retransmit now t).to_send
unfolding retransmit
NoSack-retransmit now (s, wanted, woken) =
    elim (Bool-cases (length (resend now wanted s.write_queue).0 == 0)) [
      | inl e ↦ rw e (NoSack-resend now wanted s.write_queue)
      | inr e ↦ rw e (NoSack-resend now wanted s.write_queue)
    ]

NoSack-answer_data :
    (nack : Option (ℕ × ℕ)) (s : StreamState)
    → s.mode ≡ StreamMode.udp
    → NoSack (answer_data nack s)
unfolding answer_data
NoSack-answer_data none s udp = rw udp tt
NoSack-answer_data (some (start, end)) s udp = ((λ x. cc), tt)

-- A stream in UDP mode answers no packet by an acknowledgement.
udp-NoSack :
    (now : ℕ) (kind : PacketKind) (h : TransportPacketHeader) (bytes : List ℕ) (s : StreamState)
    → s.mode ≡ StreamMode.udp
    → NoSack (react now kind h bytes s).to_send
unfolding react
udp-NoSack now PacketKind.stream_open h bytes s udp = ((λ x. cc), tt)
udp-NoSack now PacketKind.stream_open_ack h bytes s udp = tt
udp-NoSack now PacketKind.stream_close h bytes s udp = tt
udp-NoSack now PacketKind.stream h bytes s udp =
    NoSack-answer_data _ _ ((push_data-SameSender s h.seq bytes).same_mode ∙ udp)
udp-NoSack now PacketKind.sack h bytes s udp = NoSack-retransmit now _
udp-NoSack now PacketKind.nack h bytes s udp = NoSack-retransmit now _
udp-NoSack now PacketKind.keepalive_ping h bytes s udp = ((λ x. cc), tt)
udp-NoSack now PacketKind.keepalive_pong h bytes s udp = tt
udp-NoSack now PacketKind.service h bytes s udp = tt

NotSack-of_In : (o : Outgoing) (os : List Outgoing) → NoSack os → In o os → o.kind ≢ PacketKind.sack
NotSack-of_In o [] _ x = elim x [ ]
NotSack-of_In o (p ∷ os) (h, hs) (inl e) = subst (λ x. x.kind ≢ PacketKind.sack) (sym e) h
NotSack-of_In o (p ∷ os) (h, hs) (inr i) = NotSack-of_In o os hs i

-- The packet is queued under its number, with its bytes.
abbrev pub IsQueued : ℕ → List ℕ → List (ℕ × SentPacket) → Type 0
IsQueued k bytes queue = (p : SentPacket) × (BTreeMap.get k queue ≡ some p) × (p.payload ≡ bytes)

IsQueued-sent :
    (now k j : ℕ) (bytes : List ℕ) (r : SentPacket) (queue : List (ℕ × SentPacket))
    → BTreeMap.get j queue ≡ some r
    → IsQueued k bytes queue
    → IsQueued k bytes (BTreeMap.insert j (record r { sent_at = now }) queue)
IsQueued-sent now k j bytes r queue e (p, at, same) =
    let law = BTreeMap.get-insert j k (record r { sent_at = now }) queue in
    elim (ℕ_discrete j k) [
      | yes here ↦
          let found : p ≡ r = ground arith in
          (record r { sent_at = now }, ground arith, subst (λ x. x.payload ≡ bytes) found same)
      | no away ↦ (p, ground arith, same)
    ]

IsQueued-resend :
    (now k : ℕ) (bytes : List ℕ) (ks : List ℕ) (queue : List (ℕ × SentPacket))
    → IsQueued k bytes queue
    → IsQueued k bytes (resend now ks queue).0
unfolding resend
IsQueued-resend now k bytes [] queue h = h
IsQueued-resend now k bytes (j ∷ ks) queue h = elim (Option-cases (BTreeMap.get j queue)) [
  | inl e ↦ rw (e, resend) (IsQueued-resend now k bytes ks queue h)
  | inr (r, e) ↦
      rw (e, resend)
        (IsQueued-resend now k bytes ks (BTreeMap.insert j (record r { sent_at = now }) queue)
          (IsQueued-sent now k j bytes r queue e h))
]

IsQueued-retransmit :
    (now k : ℕ) (bytes : List ℕ) (t : StreamState × List ℕ × List Waker)
    → IsQueued k bytes t.0.write_queue
    → IsQueued k bytes (retransmit now t).state.write_queue
unfolding retransmit
IsQueued-retransmit now k bytes (s, wanted, woken) h =
    elim (Bool-cases (length (resend now wanted s.write_queue).0 == 0)) [
      | inl e ↦ rw e (IsQueued-resend now k bytes wanted s.write_queue h)
      | inr e ↦ rw e (IsQueued-resend now k bytes wanted s.write_queue h)
    ]

-- Only an acknowledgement takes a packet from the queue.
IsQueued-react :
    (now k : ℕ) (bytes : List ℕ) (kind : PacketKind) (h : TransportPacketHeader) (payload : List ℕ)
    (s : StreamState)
    → kind ≢ PacketKind.sack
    → IsQueued k bytes s.write_queue
    → IsQueued k bytes (react now kind h payload s).state.write_queue
unfolding react
IsQueued-react now k bytes PacketKind.stream_open h payload s other q = q
IsQueued-react now k bytes PacketKind.stream_open_ack h payload s other q = q
IsQueued-react now k bytes PacketKind.stream_close h payload s other q = q
IsQueued-react now k bytes PacketKind.stream h payload s other q =
    rw (push_data-SameSender s h.seq payload).same_queue q
IsQueued-react now k bytes PacketKind.sack h payload s other q = absurd (other refl)
IsQueued-react now k bytes PacketKind.nack h payload s other q =
    IsQueued-retransmit now k bytes (handle_nack s h.seq h.ack)
      (rw (handle_nack_queue s h.seq h.ack).1 q)
IsQueued-react now k bytes PacketKind.keepalive_ping h payload s other q = q
IsQueued-react now k bytes PacketKind.keepalive_pong h payload s other q = q
IsQueued-react now k bytes PacketKind.service h payload s other q = q

-- Whatever packet a stream in UDP mode gets, each of its answers leaves the queue of the peer that
-- takes it in, in either mode, as full as it was: a packet that waits there for its acknowledgement
-- still waits, under its number and with its bytes.
pub udp_never_acks :
    (now later id k : ℕ) (kind : PacketKind) (h : TransportPacketHeader) (bytes waiting : List ℕ)
    (s peer : StreamState) (o : Outgoing)
    → s.mode ≡ StreamMode.udp
    → In o (react now kind h bytes s).to_send
    → IsQueued k waiting peer.write_queue
    → IsQueued k waiting (react later o.kind (header id o) o.payload peer).state.write_queue
udp_never_acks now later id k kind h bytes waiting s peer o udp sent queued =
    IsQueued-react later k waiting o.kind (header id o) o.payload peer
      (NotSack-of_In o _ (udp-NoSack now kind h bytes s udp) sent) queued
