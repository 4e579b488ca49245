-- ===== src/Transport/Udp/Task/Awake.antt =====
-- A closed stream on which nobody sleeps: the end of the task makes it, and the owner keeps it.
use rathole_ng.Prelude.{
  ℕ, ◌≡◌, ◌++◌, ◌≢◌, refl, true, false, Option, none, some, List, [], ◌∷◌, arith, inl, inr,
  Bool-cases, Option-cases, ltb, length, min, take, drop, ℕ_discrete,
}
use rathole_ng.Collections.HashMap
use rathole_ng.Transport.Stream.{StreamState, Waker}
use rathole_ng.Transport.Udp.Io.{
  UdpStream, Poll, IoError, read_state, poll_read, poll_write, poll_shutdown, set_udp_nack_mode,
  close_stream, with_state,
}
use rathole_ng.Transport.Udp.Io.Writing.{state_of}
use rathole_ng.Transport.Udp.Datagram.{Cipher}
use rathole_ng.Transport.Udp.Task.{StreamTask, TaskEvent, end_task, own}

-- The stream is closed, and neither its reader nor its writer is asleep.
pub record IsReleased (u : UdpStream) : Type 0 where
  pub is_closed : u.inner.closed ≡ true
  pub awake :
      (s : StreamState) → state_of u ≡ some s → (s.read_waker ≡ none) × (s.write_waker ≡ none)

-- Who sleeps on a stream: its reader and its writer.
abbrev sleeper : Option Waker → List Waker
sleeper none = []
sleeper (some w) = w ∷ []

abbrev pub sleepers : Option StreamState → List Waker
sleepers none = []
sleepers (some s) = sleeper s.read_waker ++ sleeper s.write_waker

pub end_task-IsReleased : (t : StreamTask) → IsReleased (end_task t).udp
unfolding end_task close_stream
end_task-IsReleased t =
    let id = t.udp.stream_id in
    elim (Option-cases (HashMap.get ℕ_discrete id t.udp.inner.reliability.streams)) [
      | inl e ↦ record { is_closed = refl; awake = λ s found. absurd (ground arith) }
      | inr (s, e) ↦ record {
        is_closed = refl;
        awake = λ s' found. ground (
          arith,
          HashMap.get-insert ℕ_discrete id id (record s { read_waker = none; write_waker = none })
              t.udp.inner.reliability.streams,
        );
      }
    ]

pub end_task_wakes : (t : StreamTask) → (end_task t).woken ≡ t.woken ++ sleepers (state_of t.udp)
unfolding end_task close_stream
end_task_wakes t =
    elim (Option-cases (HashMap.get ℕ_discrete t.udp.stream_id t.udp.inner.reliability.streams)) [
      | inl e ↦ rw (e, end_task, close_stream) refl
      | inr (s, e) ↦
          rw (e, end_task, close_stream)
            (elim (Option-cases s.read_waker) [
              | inl r ↦ elim (Option-cases s.write_waker) [
                | inl w ↦ rw (r, w) refl
                | inr (x, w) ↦ rw (r, w) refl
              ]
              | inr (y, r) ↦ elim (Option-cases s.write_waker) [
                | inl w ↦ rw (r, w) refl
                | inr (x, w) ↦ rw (r, w) refl
              ]
            ])
    ]

pub released_has_no_sleepers : (u : UdpStream) → IsReleased u → sleepers (state_of u) ≡ []
released_has_no_sleepers u h = elim (Option-cases (state_of u)) [
  | inl e ↦ rw e refl
  | inr (s, e) ↦ rw (e, (h.awake s e).0, (h.awake s e).1) refl
]

-- A state with the same wakers is stored.
with_state-IsReleased :
    (u : UdpStream) (s t : StreamState)
    → state_of u ≡ some s
    → (t.read_waker ≡ s.read_waker) × (t.write_waker ≡ s.write_waker)
    → IsReleased u
    → IsReleased (with_state u t)
with_state-IsReleased u s t found same h =
    let asleep = h.awake s found in
    record {
      is_closed = h.is_closed;
      awake = λ x stored. ground (
        arith,
        HashMap.get-insert ℕ_discrete u.stream_id u.stream_id t u.inner.reliability.streams,
      );
    }

read_some :
    (u : UdpStream) (waker remaining : ℕ) (s : StreamState)
    → ltb 0 (length s.read_buf_bytes) ≡ true
    → let len = min remaining (length s.read_buf_bytes) in
      read_state u waker remaining s ≡ (
        with_state u (record s { read_buf_bytes = drop len s.read_buf_bytes }),
        Poll.ready (take len s.read_buf_bytes),
      )
unfolding read_state
read_some u waker remaining s waits = ground arith

pub read_end :
    (u : UdpStream) (waker remaining : ℕ) (s : StreamState)
    → u.inner.closed ≡ true
    → ltb 0 (length s.read_buf_bytes) ≡ false
    → read_state u waker remaining s ≡ (u, Poll.ready [])
unfolding read_state
read_end u waker remaining s closed empty = ground arith

pub read-IsReleased :
    (u : UdpStream) (waker remaining : ℕ)
    → IsReleased u
    → IsReleased (poll_read u waker remaining).0 × ((poll_read u waker remaining).1 ≢ Poll.pending)
unfolding poll_read
read-IsReleased u waker remaining h =
    elim (Option-cases (HashMap.get ℕ_discrete u.stream_id u.inner.reliability.streams)) [
      | inl e ↦ rw (e, poll_read) (h, λ x. cc)
      | inr (s, e) ↦ elim (Bool-cases (ltb 0 (length s.read_buf_bytes))) [
        | inl e2 ↦
            rw (e, poll_read, read_some u waker remaining s e2)
              (with_state-IsReleased u s _ e (refl, refl) h, λ x. cc)
        | inr e2 ↦ rw (e, poll_read, read_end u waker remaining s h.is_closed e2) (h, λ x. cc)
      ]
    ]

mode-IsReleased : (u : UdpStream) → IsReleased u → IsReleased (set_udp_nack_mode u)
unfolding set_udp_nack_mode
mode-IsReleased u h =
    elim (Option-cases (HashMap.get ℕ_discrete u.stream_id u.inner.reliability.streams)) [
      | inl e ↦ rw (e, set_udp_nack_mode) h
      | inr (s, e) ↦ rw (e, set_udp_nack_mode) (with_state-IsReleased u s _ e (refl, refl) h)
    ]

pub write_fails :
    (now : ℕ) (u : UdpStream) (waker : ℕ) (buf : List ℕ)
    → u.inner.closed ≡ true
    → poll_write now u waker buf ≡ (u, Poll.failed IoError.write_zero)
unfolding poll_write
write_fails now u waker buf e = ground arith

pub own-IsReleased :
    (c : Cipher) (nonce : ℕ → List ℕ) (now : ℕ) (e : TaskEvent) (u : UdpStream)
    → IsReleased u
    → IsReleased (own c nonce now e u)
unfolding own poll_shutdown
own-IsReleased c nonce now (TaskEvent.read waker remaining) u h =
    (read-IsReleased u waker remaining h).0
own-IsReleased c nonce now (TaskEvent.write waker buf) u h =
    rw (own, write_fails now u waker buf h.is_closed) h
own-IsReleased c nonce now TaskEvent.shutdown u h = record { is_closed = refl; awake = h.awake }
own-IsReleased c nonce now TaskEvent.udp_mode u h = mode-IsReleased u h
own-IsReleased c nonce now (TaskEvent.incoming pkt) u h = h
own-IsReleased c nonce now TaskEvent.write_item u h = h
own-IsReleased c nonce now TaskEvent.tick u h = h
own-IsReleased c nonce now TaskEvent.dropped u h = h
