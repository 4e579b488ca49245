-- ===== src/Transport/Session/Moves.antt =====
-- The invariant of one end, and that each of its moves keeps it.
use rathole_ng.Prelude.{
  ℕ, ◌+◌, ◌-◌, ◌≤◌, ◌<◌, ◌^◌, ◌≡◌, refl, sym, subst, List, ◌++◌, arith, length, min,
}
use rathole_ng.Transport.Stream.{StreamState, StreamMode, SentPacket, add64}
use rathole_ng.Transport.Stream
use rathole_ng.Transport.Udp.{Outgoing}
use rathole_ng.Transport.Udp.Invariant.{IsStream, new-IsStream, IsStream-of_same, react-IsStream}
use rathole_ng.Transport.Udp.Io.{enqueue}
use rathole_ng.Transport.Udp.Io.Writing.{enqueue-IsSender, poll_write_takes}
use rathole_ng.Transport.Reliability.{tick_stream}
use rathole_ng.Transport.Session.{
  End, Move, write, receive, tick, take_bytes, set_udp_nack_mode, header, new_end, written,
  received, ticked,
}
use rathole_ng.Transport.Session.Queue.{
  IsCarried, AreCarried, AreCarried-mono, AreCarried-append, IsCarried-of_In, insert-Holds,
}
use rathole_ng.Transport.Session.Sending.{IsWriter, Keeps, react-Keeps, tick-Keeps}
use rathole_ng.Transport.Session.Receiving.{
  IsReader, IsReader-of_same, new-IsReader, read-IsReader, react-IsReader,
}

-- An end writes `mine` and reads `theirs`, of which the numbers below `bound` are written.
pub record IsEnd (mine theirs : ℕ → List ℕ) (bound : ℕ) (e : End) : Type 0 where
  pub writer : IsWriter mine e.state
  pub carried : AreCarried mine e.state.next_write_seq e.sent
  pub reader : IsReader theirs bound e.taken e.state

module _ (mine theirs : ℕ → List ℕ) (bound : ℕ) where
  pub new-IsEnd : (mode : StreamMode) → 1 ≤ bound → IsEnd mine theirs bound (new_end mode)
  unfolding Stream.new
  new-IsEnd mode one = record {
    writer = record {
      stream = new-IsStream mode;
      room = omega arith;
      holds = tt;
      few = omega arith;
    };
    carried = tt;
    reader = new-IsReader theirs bound mode one;
  }

  -- What stays when the next number stays.
  end_of_Keeps :
      (e : End) (t : StreamState) (os : List Outgoing)
      → IsStream t
      → Keeps mine e.state t os
      → IsReader theirs bound e.taken t
      → IsEnd mine theirs bound e
      → IsEnd mine theirs bound (record e { state = t; sent = os ++ e.sent })
  end_of_Keeps e t os v (same, holds, few, carried) r h = record {
    writer = record { stream = v; room = rw same h.writer.room; holds = holds; few = few };
    carried =
        subst (λ n. AreCarried mine n (os ++ e.sent)) (sym same)
          (AreCarried-append mine e.state.next_write_seq os e.sent carried h.carried);
    reader = r;
  }

  written-IsEnd :
      (now : ℕ) (e : End)
      → length (enqueue now e.state (mine e.state.next_write_seq)).write_queue ≤ 1024
      → e.state.next_write_seq + 1 < 2 ^ 64 - 1
      → IsEnd mine theirs bound e
      → IsEnd mine theirs bound (written mine now e)
        × (e.state.next_write_seq ≤ (written mine now e).state.next_write_seq)
  unfolding enqueue
  written-IsEnd now e few room h =
      let s = e.state in
      let k = s.next_write_seq in
      let v = h.writer.stream in
      let p : SentPacket = record { payload = mine k; sent_at = now; retransmits = 0 } in
      let next : add64 k 1 ≡ k + 1 = omega arith in
      let sender = enqueue-IsSender now s (mine k) v.sends v.writes_from_one (omega arith) in
      (
        record {
          writer = record {
            stream = record {
              receives = record {
                from_one = v.receives.from_one;
                cursor_u64 = v.receives.cursor_u64;
                ahead = v.receives.ahead;
                bounded = v.receives.bounded;
              };
              sends = sender;
              writes_from_one = omega arith;
            };
            room = omega arith;
            holds = insert-Holds mine k p s.write_queue refl h.writer.holds;
            few = few;
          };
          carried = (
            (λ _. (refl, v.writes_from_one, omega arith)),
            subst (λ n. AreCarried mine n e.sent) (sym next)
                (AreCarried-mono mine k (k + 1) e.sent (omega arith) h.carried),
          );
          reader = IsReader-of_same theirs bound e.taken s _ (refl, refl, refl) h.reader;
        },
        omega arith,
      )

  received-IsEnd :
      (now id : ℕ) (o : Outgoing) (e : End)
      → bound ≤ 2 ^ 64 - 1
      → IsCarried theirs bound o
      → IsEnd mine theirs bound e
      → IsEnd mine theirs bound (received now id o e)
  received-IsEnd now id o e room c h =
      let h' = header id o in
      let v =
        react-IsStream now o.kind h' o.payload e.state h.writer.stream
          (λ k. omega (arith, (c k).2)) in
      end_of_Keeps e _ _ v (react-Keeps mine now o.kind h' o.payload e.state h.writer)
        (react-IsReader theirs bound now o.kind h' o.payload e.taken e.state
          h.writer.stream.receives room (λ k. ((c k).0, (c k).2)) h.reader)
        h

  tick_same :
      (now id : ℕ) (s : StreamState)
      → ((tick_stream now id s).0.next_read_seq ≡ s.next_read_seq)
        × ((tick_stream now id s).0.read_buffer ≡ s.read_buffer)
        × ((tick_stream now id s).0.read_buf_bytes ≡ s.read_buf_bytes)
  unfolding tick_stream
  tick_same now id s = ground arith

  ticked-IsEnd :
      (now id : ℕ) (e : End) → IsEnd mine theirs bound e → IsEnd mine theirs bound (ticked now id e)
  ticked-IsEnd now id e h =
      let t = tick-Keeps mine now id e.state h.writer in
      end_of_Keeps e _ _ t.0 t.1
        (IsReader-of_same theirs bound e.taken e.state _ (tick_same now id e.state) h.reader) h

  -- The next number stays, whatever a packet or the timer does.
  pub move-IsEnd :
      (inbox : List Outgoing) (e f : End)
      → bound ≤ 2 ^ 64 - 1
      → AreCarried theirs bound inbox
      → Move mine inbox e f
      → IsEnd mine theirs bound e
      → IsEnd mine theirs bound f × (e.state.next_write_seq ≤ f.state.next_write_seq)
  move-IsEnd inbox e _ room c (write now u waker n buf at ready chunk left) h =
      let (_, _, _, _, few) = poll_write_takes now u waker n buf e.state at ready in
      written-IsEnd now e (subst (λ b. length (enqueue now e.state b).write_queue ≤ 1024) chunk few)
        left h
  move-IsEnd inbox e _ room c (receive now id o i) h =
      let kept = react-Keeps mine now o.kind (header id o) o.payload e.state h.writer in
      (
        received-IsEnd now id o e room (IsCarried-of_In theirs bound o inbox c i) h,
        omega (arith, kept.0),
      )
  move-IsEnd inbox e _ room c (tick now id) h =
      let kept = (tick-Keeps mine now id e.state h.writer).1 in
      (ticked-IsEnd now id e h, omega (arith, kept.0))
  move-IsEnd inbox e _ room c (take_bytes n) h =
      let s = e.state in
      let v = h.writer in
      let len = min n (length s.read_buf_bytes) in
      (
        record {
          writer = record {
            stream = IsStream-of_same _ v.stream refl refl refl refl;
            room = v.room;
            holds = v.holds;
            few = v.few;
          };
          carried = h.carried;
          reader = read-IsReader theirs bound e.taken s len h.reader;
        },
        omega arith,
      )
  move-IsEnd inbox e _ room c set_udp_nack_mode h =
      let v = h.writer in
      (
        record {
          writer = record {
            stream = IsStream-of_same _ v.stream refl refl refl refl;
            room = v.room;
            holds = v.holds;
            few = v.few;
          };
          carried = h.carried;
          reader = IsReader-of_same theirs bound e.taken e.state _ (refl, refl, refl) h.reader;
        },
        omega arith,
      )
