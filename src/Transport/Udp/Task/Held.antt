-- ===== src/Transport/Udp/Task/Held.antt =====
-- What the end of the task and the owner leave of a closed stream.
use rathole_ng.Prelude.{
  ℕ, ◌≡◌, ◌∙◌, refl, true, some, List, arith, Option-cases, Bool-cases, inl, inr, ltb, length,
  ℕ_discrete,
}
use rathole_ng.Collections.HashMap
use rathole_ng.Transport.Reliability.{Reliability}
use rathole_ng.Transport.Stream.{StreamState}
use rathole_ng.Transport.Udp.{put_stream}
use rathole_ng.Transport.Udp.Io.{
  UdpStream, poll_read, read_state, poll_shutdown, set_udp_nack_mode, close_stream,
}
use rathole_ng.Transport.Udp.Datagram.{Cipher}
use rathole_ng.Transport.Udp.Task.{StreamTask, TaskEvent, end_task, own}
use rathole_ng.Transport.Udp.Task.Awake.{read_end, write_fails}

-- The second state has the queue, the numbers and the reordered packets of the first.
pub record IsSameHeld (s t : StreamState) : Type 0 where
  pub same_queue : t.write_queue ≡ s.write_queue
  pub same_write : t.next_write_seq ≡ s.next_write_seq
  pub same_read : t.next_read_seq ≡ s.next_read_seq
  pub same_buffer : t.read_buffer ≡ s.read_buffer

-- Each stream of the first map is in the second, with what it held.
pub record AreHeld (a b : Reliability) : Type 0 where
  pub held :
      (k : ℕ) (s : StreamState)
      → HashMap.get ℕ_discrete k a.streams ≡ some s
      → (t : StreamState) × (HashMap.get ℕ_discrete k b.streams ≡ some t) × IsSameHeld s t

same_held : (s : StreamState) → IsSameHeld s s
same_held s = record { same_queue = refl; same_write = refl; same_read = refl; same_buffer = refl }

pub AreHeld-refl : (a : Reliability) → AreHeld a a
AreHeld-refl a = record { held = λ k s e. (s, e, same_held s) }

pub AreHeld-trans : (a b c : Reliability) → AreHeld a b → AreHeld b c → AreHeld a c
AreHeld-trans a b c h g = record {
  held = λ k s e.
      let (t, e2, x) = h.held k s e in
      let (r, e3, y) = g.held k t e2 in
      (
        r,
        e3,
        record {
          same_queue = y.same_queue ∙ x.same_queue;
          same_write = y.same_write ∙ x.same_write;
          same_read = y.same_read ∙ x.same_read;
          same_buffer = y.same_buffer ∙ x.same_buffer;
        },
      );
}

put_stream-AreHeld :
    (id : ℕ) (s t : StreamState) (a : Reliability)
    → HashMap.get ℕ_discrete id a.streams ≡ some s
    → IsSameHeld s t
    → AreHeld a (put_stream id t a)
put_stream-AreHeld id s t a found same = record {
  held = λ k x e.
      let law = HashMap.get-insert ℕ_discrete id k t a.streams in
      elim (ℕ_discrete id k) [
        | yes here ↦ let e1 : x ≡ s = ground arith in (t, ground arith, rw e1 same)
        | no away ↦ (x, ground arith, same_held x)
      ];
}

-- A closed stream that holds what the first held.
pub record IsFinal (a b : UdpStream) : Type 0 where
  pub is_closed : b.inner.closed ≡ true
  pub streams : AreHeld a.inner.reliability b.inner.reliability

read_state-held :
    (u : UdpStream) (waker remaining : ℕ) (s : StreamState)
    → HashMap.get ℕ_discrete u.stream_id u.inner.reliability.streams ≡ some s
    → u.inner.closed ≡ true
    → IsFinal u (read_state u waker remaining s).0
unfolding read_state
read_state-held u waker remaining s found closed =
    elim (Bool-cases (ltb 0 (length s.read_buf_bytes))) [
      | inl e ↦
          rw (e, read_state)
            (record {
              is_closed = closed;
              streams = put_stream-AreHeld u.stream_id s _ u.inner.reliability found (record {
                same_queue = refl;
                same_write = refl;
                same_read = refl;
                same_buffer = refl;
              });
            })
      | inr e ↦
          rw (read_end u waker remaining s closed e)
            (record { is_closed = closed; streams = AreHeld-refl _ })
    ]

pub end_task-held :
    (t : StreamTask) → IsFinal t.udp (end_task t).udp × ((end_task t).datagrams ≡ t.datagrams)
unfolding end_task close_stream
end_task-held t =
    let r = t.udp.inner.reliability in
    let id = t.udp.stream_id in
    elim (Option-cases (HashMap.get ℕ_discrete id r.streams)) [
      | inl e ↦
          rw (e, end_task, close_stream)
            (record { is_closed = refl; streams = AreHeld-refl r }, refl)
      | inr (s, e) ↦
          rw (e, end_task, close_stream)
            (
              record {
                is_closed = refl;
                streams = put_stream-AreHeld id s _ r e (record {
                  same_queue = refl;
                  same_write = refl;
                  same_read = refl;
                  same_buffer = refl;
                });
              },
              refl,
            )
    ]

pub own-held :
    (c : Cipher) (nonce : ℕ → List ℕ) (now : ℕ) (e : TaskEvent) (u : UdpStream)
    → u.inner.closed ≡ true
    → IsFinal u (own c nonce now e u)
unfolding own poll_read set_udp_nack_mode poll_shutdown
own-held c nonce now (TaskEvent.read waker remaining) u closed =
    elim (Option-cases (HashMap.get ℕ_discrete u.stream_id u.inner.reliability.streams)) [
      | inl e ↦ rw (e, own, poll_read) (record { is_closed = closed; streams = AreHeld-refl _ })
      | inr (s, e) ↦ rw (e, own, poll_read) (read_state-held u waker remaining s e closed)
    ]
own-held c nonce now (TaskEvent.write waker buf) u closed =
    rw (own, write_fails now u waker buf closed)
      (record { is_closed = closed; streams = AreHeld-refl _ })
own-held c nonce now TaskEvent.shutdown u closed = record {
  is_closed = refl;
  streams = AreHeld-refl _;
}
own-held c nonce now TaskEvent.udp_mode u closed =
    elim (Option-cases (HashMap.get ℕ_discrete u.stream_id u.inner.reliability.streams)) [
      | inl e ↦
          rw (e, own, set_udp_nack_mode) (record { is_closed = closed; streams = AreHeld-refl _ })
      | inr (s, e) ↦
          rw (e, own, set_udp_nack_mode)
            (record {
              is_closed = closed;
              streams = put_stream-AreHeld u.stream_id s _ u.inner.reliability e (record {
                same_queue = refl;
                same_write = refl;
                same_read = refl;
                same_buffer = refl;
              });
            })
    ]
own-held c nonce now (TaskEvent.incoming pkt) u closed = record {
  is_closed = closed;
  streams = AreHeld-refl _;
}
own-held c nonce now TaskEvent.write_item u closed = record {
  is_closed = closed;
  streams = AreHeld-refl _;
}
own-held c nonce now TaskEvent.tick u closed = record {
  is_closed = closed;
  streams = AreHeld-refl _;
}
own-held c nonce now TaskEvent.dropped u closed = record {
  is_closed = closed;
  streams = AreHeld-refl _;
}
