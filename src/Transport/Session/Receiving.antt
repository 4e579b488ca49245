-- ===== src/Transport/Session/Receiving.antt =====
-- What an end has received, through all its moves.
use rathole_ng.Prelude.{
  ℕ, ◌-◌, ◌≤◌, ◌<◌, ◌^◌, ◌≡◌, refl, ap, ◌∙◌, true, List, [], ◌++◌, arith, take, drop, append_assoc,
  take-append-drop,
}
use rathole_ng.Collections.BTreeMap
use rathole_ng.Transport.Packet.{PacketKind, TransportPacketHeader}
use rathole_ng.Transport.Stream.{
  StreamState, StreamMode, Waker, wake_writer, handle_ack, handle_nack, push_data,
}
use rathole_ng.Transport.Stream
use rathole_ng.Transport.Stream.Drain.{has}
use rathole_ng.Transport.Stream.Receive.{IsReceiver, has-push_data}
use rathole_ng.Transport.Stream.Delivery.{Carries, push_data-Carries, new-Carries}
use rathole_ng.Transport.Udp.{retransmit, react}

-- The receiving half is not touched.
abbrev pub SameReceiver : StreamState → StreamState → Type 0
SameReceiver s t =
    (t.next_read_seq ≡ s.next_read_seq)
    × (t.read_buffer ≡ s.read_buffer)
    × (t.read_buf_bytes ≡ s.read_buf_bytes)

module _ (chunk : ℕ → List ℕ) (bound : ℕ) where
  -- The reader has the chunks in order, and holds no number that was not written.
  pub record IsReader (taken : List ℕ) (s : StreamState) : Type 0 where
    pub carries : Carries chunk taken s
    pub known : (k : ℕ) → has s k ≡ true → k < bound

  pub IsReader-of_same :
      (taken : List ℕ) (s t : StreamState) → SameReceiver s t → IsReader taken s → IsReader taken t
  unfolding has
  IsReader-of_same taken s t (cursor, buffer, bytes) r = record {
    carries = record {
      in_order = rw (cursor, bytes) r.carries.in_order;
      buffered = rw buffer r.carries.buffered;
    };
    known = rw (cursor, buffer) r.known;
  }

  push_data-IsReader :
      (taken : List ℕ) (s : StreamState) (seq : ℕ)
      → IsReceiver s
      → seq < 2 ^ 64 - 1
      → seq < bound
      → IsReader taken s
      → IsReader taken (push_data s seq (chunk seq)).0
  push_data-IsReader taken s seq v lt below r = record {
    carries = push_data-Carries chunk taken s seq v lt r.carries;
    known = λ k h. ground (arith, has-push_data s seq (chunk seq) k v lt, r.known k);
  }

  pub new-IsReader : (mode : StreamMode) → 1 ≤ bound → IsReader [] (Stream.new mode)
  unfolding Stream.new has BTreeMap.contains_key
  new-IsReader mode one = record { carries = new-Carries chunk mode; known = λ k h. ground arith }

  -- A read moves bytes from the buffer to the reader.
  pub read-IsReader :
      (taken : List ℕ) (s : StreamState) (n : ℕ)
      → IsReader taken s
      → IsReader
          (taken ++ take n s.read_buf_bytes)
          (record s { read_buf_bytes = drop n s.read_buf_bytes })
  unfolding has
  read-IsReader taken s n r = record {
    carries = record {
      in_order =
          append_assoc taken (take n s.read_buf_bytes) (drop n s.read_buf_bytes)
          ∙ ap (λ bytes. taken ++ bytes) (take-append-drop n s.read_buf_bytes)
          ∙ r.carries.in_order;
      buffered = r.carries.buffered;
    };
    known = r.known;
  }

  retransmit_same :
      (now : ℕ) (t : StreamState × List ℕ × List Waker) → SameReceiver t.0 (retransmit now t).state
  unfolding retransmit
  retransmit_same now (s, wanted, woken) = ground arith

  handle_ack_same : (s : StreamState) (ack bits : ℕ) → SameReceiver s (handle_ack s ack bits).0
  unfolding handle_ack wake_writer
  handle_ack_same s ack bits = ground arith

  handle_nack_same : (s : StreamState) (start end : ℕ) → SameReceiver s (handle_nack s start end).0
  unfolding handle_nack wake_writer
  handle_nack_same s start end = ground arith

  pub react-IsReader :
      (now : ℕ) (kind : PacketKind) (h : TransportPacketHeader) (bytes taken : List ℕ)
      (s : StreamState)
      → IsReceiver s
      → bound ≤ 2 ^ 64 - 1
      → (kind ≡ PacketKind.stream → (bytes ≡ chunk h.seq) × (h.seq < bound))
      → IsReader taken s
      → IsReader taken (react now kind h bytes s).state
  unfolding react
  react-IsReader now PacketKind.stream_open h bytes taken s v room c r =
      IsReader-of_same taken s _ (refl, refl, refl) r
  react-IsReader now PacketKind.stream_open_ack h bytes taken s v room c r =
      IsReader-of_same taken s _ (refl, refl, refl) r
  react-IsReader now PacketKind.stream_close h bytes taken s v room c r =
      IsReader-of_same taken s _ (refl, refl, refl) r
  react-IsReader now PacketKind.stream h bytes taken s v room c r =
      let (same, below) = c refl in
      IsReader-of_same taken (push_data s h.seq bytes).0 _ (refl, refl, refl)
        (rw same (push_data-IsReader taken s h.seq v (omega arith) below r))
  react-IsReader now PacketKind.sack h bytes taken s v room c r =
      let t = handle_ack s h.ack h.ack_bits in
      IsReader-of_same taken t.0 _ (retransmit_same now t)
        (IsReader-of_same taken s t.0 (handle_ack_same s h.ack h.ack_bits) r)
  react-IsReader now PacketKind.nack h bytes taken s v room c r =
      let t = handle_nack s h.seq h.ack in
      IsReader-of_same taken t.0 _ (retransmit_same now t)
        (IsReader-of_same taken s t.0 (handle_nack_same s h.seq h.ack) r)
  react-IsReader now PacketKind.keepalive_ping h bytes taken s v room c r = r
  react-IsReader now PacketKind.keepalive_pong h bytes taken s v room c r = r
  react-IsReader now PacketKind.service h bytes taken s v room c r = r

-- More may be written.
pub IsReader-mono :
    (chunk : ℕ → List ℕ) (a b : ℕ) (taken : List ℕ) (s : StreamState)
    → a ≤ b
    → IsReader chunk a taken s
    → IsReader chunk b taken s
IsReader-mono chunk a b taken s le r = record {
  carries = r.carries;
  known = λ k h. omega (arith, r.known k h);
}
