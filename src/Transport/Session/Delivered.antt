-- ===== src/Transport/Session/Delivered.antt =====
-- What each reader of a session has, whatever the network did.
use rathole_ng.Prelude.{ℕ, ◌-◌, ◌≤◌, ◌<◌, ◌≡◌, List, ◌++◌, arith, length}
use rathole_ng.Transport.Stream.{StreamState, StreamMode}
use rathole_ng.Transport.Stream
use rathole_ng.Transport.Stream.Delivery.{upto}
use rathole_ng.Transport.Session.{End, Session, Step, go_left, go_right, Reach, start, next, init}
use rathole_ng.Transport.Session.Moves.{IsEnd, new-IsEnd, move-IsEnd}
use rathole_ng.Transport.Session.Receiving.{IsReader-mono}
use rathole_ng.Transport.Stream.Drain.{has}

pub record IsSession (lefts rights : ℕ → List ℕ) (s : Session) : Type 0 where
  pub at_left : IsEnd lefts rights s.right.state.next_write_seq s.left
  pub at_right : IsEnd rights lefts s.left.state.next_write_seq s.right

-- An end of which the other end has written more.
IsEnd-mono :
    (mine theirs : ℕ → List ℕ) (a b : ℕ) (e : End)
    → a ≤ b
    → IsEnd mine theirs a e
    → IsEnd mine theirs b e
IsEnd-mono mine theirs a b e le h = record {
  writer = h.writer;
  carried = h.carried;
  reader = IsReader-mono theirs a b e.taken e.state le h.reader;
}

module _ (lefts rights : ℕ → List ℕ) where
  Step-IsSession :
      (s t : Session) → Step lefts rights s t → IsSession lefts rights s → IsSession lefts rights t
  Step-IsSession s _ (go_left {e} m) h =
      let (moved, le) =
        move-IsEnd lefts rights s.right.state.next_write_seq s.right.sent s.left e
          (omega (arith, h.at_right.writer.room)) h.at_right.carried m h.at_left in
      record { at_left = moved; at_right = IsEnd-mono rights lefts _ _ s.right le h.at_right }
  Step-IsSession s _ (go_right {e} m) h =
      let (moved, le) =
        move-IsEnd rights lefts s.left.state.next_write_seq s.left.sent s.right e
          (omega (arith, h.at_left.writer.room)) h.at_left.carried m h.at_right in
      record { at_left = IsEnd-mono lefts rights _ _ s.left le h.at_left; at_right = moved }

  init-IsSession : (m n : StreamMode) → IsSession lefts rights (init m n)
  unfolding Stream.new
  init-IsSession m n = record {
    at_left = new-IsEnd lefts rights 1 m (omega arith);
    at_right = new-IsEnd rights lefts 1 n (omega arith);
  }

  reach-IsSession :
      (m n : StreamMode) (s : Session) → Reach lefts rights m n s → IsSession lefts rights s
  reach-IsSession m n _ start = init-IsSession m n
  reach-IsSession m n _ (next {s} {t} r st) = Step-IsSession s t st (reach-IsSession m n s r)

-- What one end has of the other: the chunks 1 to `n` in order, all of them written.
prefix_of_end :
    (mine theirs : ℕ → List ℕ) (bound : ℕ) (e : End)
    → 1 ≤ bound
    → IsEnd mine theirs bound e
    → (n : ℕ) × (e.taken ++ e.state.read_buf_bytes ≡ upto theirs n) × (n < bound)
unfolding has
prefix_of_end mine theirs bound e one h =
    let n = e.state.next_read_seq - 1 in
    (
      n,
      h.reader.carries.in_order,
      ground (arith, h.reader.known n, h.writer.stream.receives.from_one),
    )

-- However the network loses, repeats, delays and reorders packets, and whatever the timers and the
-- modes of the two ends do, each reader has, taken or waiting, exactly the first `n` chunks that
-- the other end wrote, in their order and once each, for some `n`; numbers are below the last
-- one of a `u64`.
pub session_delivers_prefix :
    (lefts rights : ℕ → List ℕ) (m n : StreamMode) (s : Session)
    → Reach lefts rights m n s
    → ((k : ℕ) × (s.right.taken ++ s.right.state.read_buf_bytes ≡ upto lefts k)
        × (k < s.left.state.next_write_seq))
      × ((k : ℕ) × (s.left.taken ++ s.left.state.read_buf_bytes ≡ upto rights k)
          × (k < s.right.state.next_write_seq))
session_delivers_prefix lefts rights m n s r =
    let h = reach-IsSession lefts rights m n s r in
    (
      prefix_of_end rights lefts s.left.state.next_write_seq s.right
          h.at_left.writer.stream.writes_from_one h.at_right,
      prefix_of_end lefts rights s.right.state.next_write_seq s.left
          h.at_right.writer.stream.writes_from_one h.at_left,
    )

-- However the network loses, repeats, delays and reorders packets, and whatever the timers, the
-- readers and the writers of the two ends do, neither end queues more than 1024 packets that wait
-- for an acknowledgement.
pub session_queue_bound :
    (lefts rights : ℕ → List ℕ) (m n : StreamMode) (s : Session)
    → Reach lefts rights m n s
    → (length s.left.state.write_queue ≤ 1024) × (length s.right.state.write_queue ≤ 1024)
session_queue_bound lefts rights m n s r =
    let h = reach-IsSession lefts rights m n s r in (h.at_left.writer.few, h.at_right.writer.few)
