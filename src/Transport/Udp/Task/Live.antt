-- ===== src/Transport/Udp/Task/Live.antt =====
-- What each operation of a connection leaves of its streams.
use rathole_ng.Prelude.{
  ℕ, ◌-◌, ◌≤◌, ◌<◌, ◌^◌, ◌≡◌, refl, subst, some, List, [], ◌∷◌, arith, inl, inr, Bool-cases,
  Option-cases, ℕ_discrete,
}
use rathole_ng.Collections.HashMap
use rathole_ng.Transport.Packet.{PacketKind, TransportPacketHeader}
use rathole_ng.Transport.Stream.{StreamState, StreamMode, SentPacket, Waker, add64}
use rathole_ng.Transport.Stream
use rathole_ng.Transport.Reliability.{Reliability, tick_stream, tick_streams, get_retransmissions}
use rathole_ng.Transport.Udp.{
  UdpStreamInner, IncomingPacket, react, stream_or_new, handle_incoming, handle_tick,
}
use rathole_ng.Transport.Udp.Invariant.{new-IsStream, react-IsStream, IsStream-of_same}
use rathole_ng.Transport.Udp.Io.{UdpStream, close_stream}
use rathole_ng.Transport.Session.Sending.{IsWriter, react-Keeps, tick-Keeps}

abbrev pub streams_of : UdpStream → List (ℕ × StreamState)
streams_of u = u.inner.reliability.streams

-- A valid stream, whose queue has the chunks that were written, and its next number.
pub record IsLive (next : ℕ) (s : StreamState) : Type 0 where
  pub chunk : ℕ → List ℕ
  pub writer : IsWriter chunk s
  pub numbered : s.next_write_seq ≤ next

pub record AreLive (next : ℕ) (m : List (ℕ × StreamState)) : Type 0 where
  pub at : (id : ℕ) (s : StreamState) → HashMap.get ℕ_discrete id m ≡ some s → IsLive next s

module _ (next : ℕ) where
  pub insert-AreLive :
      (id : ℕ) (s : StreamState) (m : List (ℕ × StreamState))
      → AreLive next m
      → IsLive next s
      → AreLive next (HashMap.insert ℕ_discrete id s m)
  insert-AreLive id s m h l = record {
    at = λ k t found.
        let law = HashMap.get-insert ℕ_discrete id k s m in
        elim (ℕ_discrete id k) [
          | yes e ↦ let same : s ≡ t = ground arith in subst (IsLive next) same l
          | no ne ↦ h.at k t (ground arith)
        ];
  }

  -- A state that differs in its flags, its wakers and the bytes that wait for the reader only.
  pub IsLive-of_same :
      (s t : StreamState)
      → IsLive next s
      → (t.next_read_seq ≡ s.next_read_seq)
        × (t.read_buffer ≡ s.read_buffer)
        × (t.next_write_seq ≡ s.next_write_seq)
        × (t.write_queue ≡ s.write_queue)
      → IsLive next t
  IsLive-of_same s t l (cursor, buffer, writes, queue) = record {
    chunk = l.chunk;
    writer = record {
      stream = IsStream-of_same t l.writer.stream cursor buffer writes queue;
      room = rw writes l.writer.room;
      holds = rw queue l.writer.holds;
      few = rw queue l.writer.few;
    };
    numbered = rw writes l.numbered;
  }

  pub new-IsLive : (mode : StreamMode) → 1 ≤ next → IsLive next (Stream.new mode)
  unfolding Stream.new
  new-IsLive mode one = record {
    chunk = λ k. [];
    writer = record {
      stream = new-IsStream mode;
      room = omega arith;
      holds = tt;
      few = omega arith;
    };
    numbered = one;
  }

  react-IsLive :
      (now : ℕ) (kind : PacketKind) (h : TransportPacketHeader) (bytes : List ℕ) (s : StreamState)
      → IsLive next s
      → h.seq < 2 ^ 64 - 1
      → IsLive next (react now kind h bytes s).state
  react-IsLive now kind h bytes s l lt =
      let k = react-Keeps l.chunk now kind h bytes s l.writer in
      record {
        chunk = l.chunk;
        writer = record {
          stream = react-IsStream now kind h bytes s l.writer.stream (λ _. lt);
          room = rw k.0 l.writer.room;
          holds = k.1;
          few = k.2;
        };
        numbered = rw k.0 l.numbered;
      }

  tick_stream-IsLive :
      (now id : ℕ) (s : StreamState) → IsLive next s → IsLive next (tick_stream now id s).0
  tick_stream-IsLive now id s l =
      let (v, k) = tick-Keeps l.chunk now id s l.writer in
      record {
        chunk = l.chunk;
        writer = record { stream = v; room = rw k.0 l.writer.room; holds = k.1; few = k.2 };
        numbered = rw k.0 l.numbered;
      }

  get-tick_streams :
      (now id : ℕ) (m : List (ℕ × StreamState)) (t : StreamState)
      → HashMap.get ℕ_discrete id (tick_streams now m).0 ≡ some t
      → (s : StreamState) × (HashMap.get ℕ_discrete id m ≡ some s) × ((tick_stream now id s).0 ≡ t)
  unfolding tick_streams HashMap.get
  get-tick_streams now id [] t found = absurd (ground arith)
  get-tick_streams now id ((j, s) ∷ m) t found = elim (ℕ_discrete j id) [
    | yes e ↦
        let same : (tick_stream now j s).0 ≡ t = ground arith in
        (s, ground arith, subst (λ (k : ℕ). (tick_stream now k s).0 ≡ t) e same)
    | no ne ↦
        let (s', before, ticked) = get-tick_streams now id m t (ground arith) in
        (s', ground arith, ticked)
  ]

  get_retransmissions-AreLive :
      (now : ℕ) (r : Reliability)
      → AreLive next r.streams
      → AreLive next (get_retransmissions r now).0.streams
  unfolding get_retransmissions
  get_retransmissions-AreLive now r h = record {
    at = λ id t found.
        let (s, before, ticked) = get-tick_streams now id r.streams t found in
        subst (IsLive next) ticked (tick_stream-IsLive now id s (h.at id s before));
  }

  pub handle_tick-AreLive :
      (now : ℕ) (inner : UdpStreamInner)
      → AreLive next inner.reliability.streams
      → AreLive next (handle_tick now inner).0.reliability.streams
  unfolding handle_tick
  handle_tick-AreLive now inner h =
      let after = get_retransmissions-AreLive now inner.reliability h in ground arith

  pub handle_incoming-AreLive :
      (now : ℕ) (inner : UdpStreamInner) (pkt : IncomingPacket)
      → 1 ≤ next
      → pkt.header.seq < 2 ^ 64 - 1
      → AreLive next inner.reliability.streams
      → AreLive next (handle_incoming now inner pkt).0.reliability.streams
  unfolding handle_incoming stream_or_new
  handle_incoming-AreLive now inner pkt one lt h =
      let id = pkt.header.channel_id in
      let kind = pkt.header.packet_kind in
      let streams = inner.reliability.streams in
      let known : IsLive next (stream_or_new id inner.reliability) =
        elim (Option-cases (HashMap.get ℕ_discrete id streams)) [
          | inl e ↦ rw (e, stream_or_new) (new-IsLive StreamMode.tcp one)
          | inr (s, e) ↦ rw (e, stream_or_new) (h.at id s e)
        ] in
      let after =
        insert-AreLive id _ streams h (react-IsLive now kind pkt.header pkt.payload _ known lt) in
      elim (Bool-cases inner.closed) [ inl e ↦ simp e h | inr e ↦ simp e after ]

  pub close_stream-AreLive :
      (id : ℕ) (inner : UdpStreamInner)
      → AreLive next inner.reliability.streams
      → AreLive next (close_stream id inner).0.reliability.streams
  unfolding close_stream
  close_stream-AreLive id inner h =
      elim (Option-cases (HashMap.get ℕ_discrete id inner.reliability.streams)) [
        | inl e ↦ rw (e, close_stream) h
        | inr (s, e) ↦
            rw (e, close_stream)
              (insert-AreLive id _ _ h (IsLive-of_same s _ (h.at id s e) (refl, refl, refl, refl)))
      ]
