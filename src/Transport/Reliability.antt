-- ===== src/Transport/Reliability.antt =====
-- src/transport/reliability.rs: `Reliability`, the streams of one connection and their timer.
pub mod Timer
mod Tests
use rathole_ng.Prelude.{
  ℕ, ◌+◌, ◌-◌, ◌*◌, ◌%◌, ◌^◌, Bool, true, false, List, [], ◌∷◌, ◌++◌, ltb, if◌then◌else◌,
}
use rathole_ng.Collections.BTreeMap
use rathole_ng.Transport.Stream.{SentPacket, StreamState, is_udp}

-- The map's list is in the order of its iteration.
pub record Reliability : Type 0 where
  pub streams : List (ℕ × StreamState)

abbrev pub millis : ℕ → ℕ
millis n = n * 1_000_000

abbrev pub secs : ℕ → ℕ
secs n = n * 1_000_000_000

-- A packet to send again: the stream, the sequence number and the bytes.
abbrev pub Retransmission : Type 0
Retransmission = ℕ × ℕ × List ℕ

-- `now.duration_since(t)`, which is zero where `t` is later.
abbrev pub duration_since : ℕ → ℕ → ℕ
duration_since now t = now - t

-- The loop over the queue of a TCP stream, with its `break`: the queue after it, the packets to
-- send again, and `stream_timed_out`.
unfoldable pub retransmit_queue :
    ℕ → ℕ → List (ℕ × SentPacket) → List (ℕ × SentPacket) × List Retransmission × Bool
retransmit_queue now id [] = ([], [], false)
retransmit_queue now id ((seq, p) ∷ m) =
    let rest = retransmit_queue now id m in
    let p' = record p { sent_at = now; retransmits = (p.retransmits + 1) % 2 ^ 32 } in
    if ltb (millis 200) (duration_since now p.sent_at)
    then (if ltb 100 p'.retransmits
        then ((seq, p') ∷ m, [], true)
        else ((seq, p') ∷ rest.0, (id, seq, p.payload) ∷ rest.1, rest.2))
    else ((seq, p) ∷ rest.0, rest.1, rest.2)

-- The closure of `retain` for a UDP stream.
unfoldable pub is_recent : ℕ → SentPacket → Bool
is_recent now p = ltb (duration_since now p.sent_at) (secs 30)

-- One round of the loop over the streams.
unfoldable pub tick_stream : ℕ → ℕ → StreamState → StreamState × List Retransmission × Bool
tick_stream now id s =
    let tcp = retransmit_queue now id s.write_queue in
    if is_udp s.mode
    then (
      record s { write_queue = BTreeMap.retain (λ _ p. is_recent now p) s.write_queue },
      [],
      false,
    )
    else (record s { write_queue = tcp.0 }, tcp.1, tcp.2)

unfoldable pub tick_streams :
    ℕ → List (ℕ × StreamState) → List (ℕ × StreamState) × List Retransmission × List ℕ
tick_streams now [] = ([], [], [])
tick_streams now ((id, s) ∷ m) =
    let rest = tick_streams now m in
    let one = tick_stream now id s in
    ((id, one.0) ∷ rest.0, one.1 ++ rest.1, if one.2 then id ∷ rest.2 else rest.2)

-- The new state, the packets to send again, and the streams that timed out.
unfoldable pub get_retransmissions : Reliability → ℕ → Reliability × List Retransmission × List ℕ
get_retransmissions r now =
    let all = tick_streams now r.streams in (record { streams = all.0 }, all.1, all.2)
