-- ===== src/Transport/Udp/Io/Writing.antt =====
-- What a writer and a reader of a `UdpStream` may rely on.
use rathole_ng.Prelude.{
  ℕ, ◌+◌, ◌≤◌, ◌<◌, ◌^◌, ◌≡◌, sym, ap, ◌∙◌, length-take, true, false, Option, some, List, [], ◌++◌,
  min, arith, length, take, drop, take-append-drop, ℕ_discrete, dec_lt,
}
use rathole_ng.Collections.BTreeMap
use rathole_ng.Collections.HashMap
use rathole_ng.Transport.Stream.{StreamState, add64}
use rathole_ng.Transport.Stream.Acks.{IsSender}
use rathole_ng.Transport.Udp.Io.{
  Poll, UdpStream, with_state, read_state, poll_read, enqueue, write_state, poll_write,
}

-- The stream's state.
abbrev pub state_of : UdpStream → Option StreamState
state_of u = HashMap.get ℕ_discrete u.stream_id u.inner.reliability.streams

-- Queueing a chunk keeps the sender valid while the numbers last.
pub enqueue-IsSender :
    (now : ℕ) (s : StreamState) (chunk : List ℕ)
    → IsSender s
    → 1 ≤ s.next_write_seq
    → s.next_write_seq + 1 < 2 ^ 64
    → IsSender (enqueue now s chunk)
unfolding enqueue
enqueue-IsSender now s chunk h one room = record {
  cursor_u64 = omega arith;
  ordered = BTreeMap.insert-Above 1 s.next_write_seq _ s.write_queue one h.ordered;
  sent =
      let e : add64 s.next_write_seq 1 ≡ s.next_write_seq + 1 = omega arith in
      rw e (
        BTreeMap.insert-Below (s.next_write_seq + 1) s.next_write_seq _ s.write_queue (omega arith)
          (BTreeMap.Below-mono s.write_queue (omega arith) h.sent));
}

state_of-with_state : (u : UdpStream) (s : StreamState) → state_of (with_state u s) ≡ some s
state_of-with_state u s =
    ground
      (arith, HashMap.get-insert ℕ_discrete u.stream_id u.stream_id s u.inner.reliability.streams)

module _ (now : ℕ) (u : UdpStream) (waker n : ℕ) (buf : List ℕ) (s : StreamState) where
  poll_write-write_state :
      state_of u ≡ some s
      → (poll_write now u waker buf).1 ≡ Poll.ready n
      → (u.inner.closed ≡ false) × (poll_write now u waker buf ≡ write_state now u waker buf s)
  unfolding poll_write
  poll_write-write_state at e = ground arith

  write_state_takes :
      (write_state now u waker buf s).1 ≡ Poll.ready n
      → (n ≡ min (length buf) 1100)
        × (length s.write_queue < 1024)
        × (state_of (write_state now u waker buf s).0 ≡ some (enqueue now s (take n buf)))
  unfolding write_state
  write_state_takes e =
      ground (arith, state_of-with_state u (enqueue now s (take (min (length buf) 1100) buf)))

  get-enqueue :
      (chunk : List ℕ)
      → BTreeMap.get s.next_write_seq (enqueue now s chunk).write_queue
        ≡ some (record { payload = chunk; sent_at = now; retransmits = 0 })
  unfolding enqueue
  get-enqueue chunk = ground (
    arith,
    BTreeMap.get-insert s.next_write_seq s.next_write_seq
        (record { payload = chunk; sent_at = now; retransmits = 0 }) s.write_queue,
  )

  length-enqueue-le :
      (chunk : List ℕ) → length (enqueue now s chunk).write_queue ≤ length s.write_queue + 1
  unfolding enqueue
  length-enqueue-le chunk = BTreeMap.length-insert-le s.next_write_seq _ s.write_queue

-- A successful write is one on an open stream; it takes a prefix of at most 1100 bytes, and puts it
-- in the queue under the next number, with no retransmit yet; the queue then holds at most 1024
-- packets.
pub poll_write_takes :
    (now : ℕ) (u : UdpStream) (waker n : ℕ) (buf : List ℕ) (s : StreamState)
    → state_of u ≡ some s
    → (poll_write now u waker buf).1 ≡ Poll.ready n
    → (n ≡ min (length buf) 1100)
      × (u.inner.closed ≡ false)
      × (state_of (poll_write now u waker buf).0 ≡ some (enqueue now s (take n buf)))
      × (BTreeMap.get s.next_write_seq (enqueue now s (take n buf)).write_queue
          ≡ some (record { payload = take n buf; sent_at = now; retransmits = 0 }))
      × (length (enqueue now s (take n buf)).write_queue ≤ 1024)
poll_write_takes now u waker n buf s at e =
    let (opened, same) = poll_write-write_state now u waker n buf s at e in
    let (taken, room, stored) =
      write_state_takes now u waker n buf s (ap (λ r. r.1) (sym same) ∙ e) in
    (
      taken,
      opened,
      rw same stored,
      get-enqueue now u waker n buf s (take n buf),
      omega (arith, length-enqueue-le now u waker n buf s (take n buf)),
    )

module _ (u : UdpStream) (waker remaining : ℕ) (s : StreamState) where
  poll_read-read_state :
      state_of u ≡ some s → poll_read u waker remaining ≡ read_state u waker remaining s
  unfolding poll_read
  poll_read-read_state at = ground arith

  -- The stream's state after a read that finds bytes.
  taken_from : StreamState
  taken_from = record s {
    read_buf_bytes = drop (min remaining (length s.read_buf_bytes)) s.read_buf_bytes;
  }

  read_state_some :
      0 < length s.read_buf_bytes
      → read_state u waker remaining s ≡ (
        with_state u taken_from,
        Poll.ready (take (min remaining (length s.read_buf_bytes)) s.read_buf_bytes),
      )
  unfolding read_state taken_from
  read_state_some h = ground arith

-- While bytes wait, a read gives the next of them in order, as many as fit, and leaves the others
-- for the next read, closed stream or not.
pub poll_read_splits :
    (u : UdpStream) (waker remaining : ℕ) (s : StreamState)
    → state_of u ≡ some s
    → 0 < length s.read_buf_bytes
    → (bytes : List ℕ) × (t : StreamState) × ((poll_read u waker remaining).1 ≡ Poll.ready bytes)
      × (state_of (poll_read u waker remaining).0 ≡ some t)
      × (bytes ++ t.read_buf_bytes ≡ s.read_buf_bytes)
      × (length bytes ≡ min remaining (length s.read_buf_bytes))
unfolding taken_from
poll_read_splits u waker remaining s at h =
    let len = min remaining (length s.read_buf_bytes) in
    let e = poll_read-read_state u waker remaining s at ∙ read_state_some u waker remaining s h in
    (
      take len s.read_buf_bytes,
      taken_from u waker remaining s,
      ap (λ r. r.1) e,
      rw e (state_of-with_state u (taken_from u waker remaining s)),
      take-append-drop len s.read_buf_bytes,
      omega (arith, length-take len s.read_buf_bytes),
    )

read_state_end :
    (u : UdpStream) (waker remaining : ℕ) (s : StreamState)
    → ¬ (0 < length s.read_buf_bytes)
    → (read_state u waker remaining s).1 ≡ Poll.ready []
    → (s.read_buf_bytes ≡ []) × (u.inner.closed ≡ true)
unfolding read_state
read_state_end u waker remaining s h e = (ground arith, ground arith)

-- A read reports the end of the stream, no bytes, only on a closed stream whose bytes are all read,
-- or for a reader with no room.
pub poll_read_end :
    (u : UdpStream) (waker remaining : ℕ) (s : StreamState)
    → state_of u ≡ some s
    → 0 < remaining
    → (poll_read u waker remaining).1 ≡ Poll.ready []
    → (s.read_buf_bytes ≡ []) × (u.inner.closed ≡ true)
poll_read_end u waker remaining s at room e = elim (dec_lt 0 (length s.read_buf_bytes)) [
  | yes h ↦
      let (bytes, t, got, _, _, size) = poll_read_splits u waker remaining s at h in
      absurd (ground arith)
  | no h ↦
      read_state_end u waker remaining s h
        (ap (λ r. r.1) (sym (poll_read-read_state u waker remaining s at)) ∙ e)
]
