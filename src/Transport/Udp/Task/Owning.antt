-- ===== src/Transport/Udp/Task/Owning.antt =====
-- What the owner's reads, writes and changes leave of the streams.
use rathole_ng.Prelude.{
  ℕ, suc, ◌+◌, ◌<◌, ◌^◌, ◌≡◌, ◌≢◌, refl, sym, subst, some, List, [], ◌∷◌, ite, if_pos, if_neg,
  arith, inl, inr, Option-cases, length, ℕ_discrete, min, take, drop, dec_lt,
}
use rathole_ng.Collections.BTreeMap
use rathole_ng.Collections.BTreeMap.{Below}
use rathole_ng.Collections.HashMap
use rathole_ng.Transport.Stream.{StreamState, StreamMode, SentPacket}
use rathole_ng.Transport.Udp.Io.{
  UdpStream, enqueue, write_state, poll_read, read_state, poll_write, poll_shutdown,
  set_udp_nack_mode, with_state,
}
use rathole_ng.Transport.Udp.Io.Writing.{state_of, enqueue-IsSender}
use rathole_ng.Transport.Session.Queue.{Holds, insert-Holds}
use rathole_ng.Transport.Udp.Datagram.{Cipher}
use rathole_ng.Transport.Udp.Task.{TaskEvent, own}
use rathole_ng.Transport.Udp.Task.Live.{IsLive, streams_of, AreLive, insert-AreLive, IsLive-of_same}

-- One chunk more is queued, under the next number.
Holds-ite :
    (chunk : ℕ → List ℕ) (next : ℕ) (bytes : List ℕ) (m : List (ℕ × SentPacket))
    → Below next m
    → Holds chunk m
    → Holds (λ k. ite (ℕ_discrete k next) bytes (chunk k)) m
Holds-ite chunk next bytes [] b h = tt
Holds-ite chunk next bytes ((k, p) ∷ m) b h =
    let other : k ≢ next = omega (arith, b.0) in
    (
      subst (λ w. p.payload ≡ w) (sym (if_neg (ℕ_discrete k next) other bytes (chunk k))) h.0,
      Holds-ite chunk next bytes m b.1 h.1,
    )

enqueue-IsLive :
    (next now : ℕ) (s : StreamState) (bytes : List ℕ)
    → next + 2 < 2 ^ 64
    → length s.write_queue < 1024
    → IsLive next s
    → IsLive (suc next) (enqueue now s bytes)
unfolding enqueue
enqueue-IsLive next now s bytes room few l =
    let k = s.next_write_seq in
    let v = l.writer.stream in
    let numbered = l.numbered in
    let p : SentPacket = record { payload = bytes; sent_at = now; retransmits = 0 } in
    let chunk : ℕ → List ℕ = λ j. ite (ℕ_discrete j k) bytes (l.chunk j) in
    record {
      chunk = chunk;
      writer = record {
        stream = record {
          receives = record {
            from_one = v.receives.from_one;
            cursor_u64 = v.receives.cursor_u64;
            ahead = v.receives.ahead;
            bounded = v.receives.bounded;
          };
          sends = enqueue-IsSender now s bytes v.sends v.writes_from_one (omega arith);
          writes_from_one = omega arith;
        };
        room = omega arith;
        holds =
            insert-Holds chunk k p s.write_queue
              (sym (if_pos (ℕ_discrete k k) refl bytes (l.chunk k)))
              (Holds-ite l.chunk k bytes s.write_queue v.sends.sent l.writer.holds);
        few = omega (arith, BTreeMap.length-insert-le k p s.write_queue);
      };
      numbered = omega arith;
    }

AreLive-mono : (next : ℕ) (m : List (ℕ × StreamState)) → AreLive next m → AreLive (suc next) m
AreLive-mono next m h = record {
  at = λ id s found.
      let l = h.at id s found in
      let numbered = l.numbered in
      record { chunk = l.chunk; writer = l.writer; numbered = omega arith };
}

module _ (next : ℕ) (u : UdpStream) (h : AreLive next (streams_of u)) where
  same-AreLive :
      (s t : StreamState)
      → state_of u ≡ some s
      → (t.next_read_seq ≡ s.next_read_seq)
        × (t.read_buffer ≡ s.read_buffer)
        × (t.next_write_seq ≡ s.next_write_seq)
        × (t.write_queue ≡ s.write_queue)
      → AreLive next (streams_of (with_state u t))
  same-AreLive s t found same =
      insert-AreLive next u.stream_id t (streams_of u) h
        (IsLive-of_same next s t (h.at u.stream_id s found) same)

  read-AreLive : (waker remaining : ℕ) → AreLive next (streams_of (poll_read u waker remaining).0)
  unfolding poll_read read_state
  read-AreLive waker remaining =
      elim (Option-cases (HashMap.get ℕ_discrete u.stream_id (streams_of u))) [
        | inl e ↦ rw (e, poll_read) h
        | inr (s, e) ↦ ground (
          arith,
          same-AreLive s
              (record s {
                read_buf_bytes = drop (min remaining (length s.read_buf_bytes)) s.read_buf_bytes;
              })
              e (refl, refl, refl, refl),
          same-AreLive s (record s { read_waker = some waker }) e (refl, refl, refl, refl),
        )
      ]

  mode-AreLive : AreLive next (streams_of (set_udp_nack_mode u))
  unfolding set_udp_nack_mode
  mode-AreLive = elim (Option-cases (HashMap.get ℕ_discrete u.stream_id (streams_of u))) [
    | inl e ↦ rw (e, set_udp_nack_mode) h
    | inr (s, e) ↦
        rw (e, set_udp_nack_mode)
          (same-AreLive s (record s { mode = StreamMode.udp }) e (refl, refl, refl, refl))
  ]

  write-AreLive :
      (now waker : ℕ) (buf : List ℕ)
      → next + 2 < 2 ^ 64
      → AreLive (suc next) (streams_of (poll_write now u waker buf).0)
  unfolding poll_write write_state
  write-AreLive now waker buf room =
      let later = AreLive-mono next (streams_of u) h in
      elim (Option-cases (HashMap.get ℕ_discrete u.stream_id (streams_of u))) [
        | inl e ↦ ground (arith, later)
        | inr (s, e) ↦ elim (dec_lt (length s.write_queue) 1024) [
          | yes few ↦
              let chunk = take (min (length buf) 1100) buf in
              let after =
                insert-AreLive (suc next) u.stream_id (enqueue now s chunk) (streams_of u) later
                  (enqueue-IsLive next now s chunk room few (h.at u.stream_id s e)) in
              ground (arith, later, after)
          | no full ↦
              let asleep = AreLive-mono next _ (
                same-AreLive s (record s { write_waker = some waker }) e
                  (refl, refl, refl, refl)) in
              ground (arith, later, asleep)
        ]
      ]

pub own-AreLive :
    (c : Cipher) (nonce : ℕ → List ℕ) (next now : ℕ) (e : TaskEvent) (u : UdpStream)
    → next + 2 < 2 ^ 64
    → AreLive next (streams_of u)
    → AreLive (suc next) (streams_of (own c nonce now e u))
unfolding own poll_shutdown
own-AreLive c nonce next now (TaskEvent.read waker remaining) u room h =
    AreLive-mono next _ (read-AreLive next u h waker remaining)
own-AreLive c nonce next now (TaskEvent.write waker buf) u room h =
    write-AreLive next u h now waker buf room
own-AreLive c nonce next now TaskEvent.shutdown u room h = AreLive-mono next (streams_of u) h
own-AreLive c nonce next now TaskEvent.udp_mode u room h =
    AreLive-mono next _ (mode-AreLive next u h)
own-AreLive c nonce next now (TaskEvent.incoming pkt) u room h = AreLive-mono next (streams_of u) h
own-AreLive c nonce next now TaskEvent.write_item u room h = AreLive-mono next (streams_of u) h
own-AreLive c nonce next now TaskEvent.tick u room h = AreLive-mono next (streams_of u) h
own-AreLive c nonce next now TaskEvent.dropped u room h = AreLive-mono next (streams_of u) h
