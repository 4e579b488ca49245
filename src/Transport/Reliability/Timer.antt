-- ===== src/Transport/Reliability/Timer.antt =====
-- What the retransmission timer keeps, sends again and gives up.
use rathole_ng.Prelude.{
  ℕ, ◌+◌, ◌^◌, ◌<◌, ◌≡◌, refl, Bool, false, ◌&&◌, ◌||◌, none, some, List, [], ◌∷◌, arith, ltb, leb,
  if◌then◌else◌,
}
use rathole_ng.Collections.BTreeMap
use rathole_ng.Collections.BTreeMap.{Above}
use rathole_ng.Transport.Stream.{SentPacket, StreamState, StreamMode}
use rathole_ng.Transport.Reliability.{
  Retransmission, millis, secs, duration_since, retransmit_queue, is_recent, tick_stream,
}

-- The packet has waited for more than 200 ms.
abbrev pub is_overdue : ℕ → SentPacket → Bool
is_overdue now p = ltb (millis 200) (duration_since now p.sent_at)

-- Some packet is overdue and was already sent again 100 times.
unfoldable pub is_exhausted : ℕ → List (ℕ × SentPacket) → Bool
is_exhausted now [] = false
is_exhausted now ((_, p) ∷ m) = (is_overdue now p && leb 100 p.retransmits) || is_exhausted now m

-- The overdue packets, in order.
unfoldable pub overdue : ℕ → ℕ → List (ℕ × SentPacket) → List Retransmission
overdue now id [] = []
overdue now id ((seq, p) ∷ m) =
    let rest = overdue now id m in if is_overdue now p then (id, seq, p.payload) ∷ rest else rest

-- The bytes that are queued under each number.
unfoldable pub payloads : List (ℕ × SentPacket) → List (ℕ × List ℕ)
payloads [] = []
payloads ((seq, p) ∷ m) = (seq, p.payload) ∷ payloads m

-- No retransmission count is close to the end of a `u32`.
abbrev pub AreCounts : List (ℕ × SentPacket) → Type 0
AreCounts [] = Unit
AreCounts ((_, p) ∷ m) = (p.retransmits + 1 < 2 ^ 32) × AreCounts m

module _ (now id : ℕ) where
  payloads-retransmit_queue :
      (m : List (ℕ × SentPacket)) → payloads (retransmit_queue now id m).0 ≡ payloads m
  unfolding retransmit_queue payloads
  payloads-retransmit_queue [] = refl
  payloads-retransmit_queue ((seq, p) ∷ m) = ground (arith, payloads-retransmit_queue m)

  timed_out-retransmit_queue :
      (m : List (ℕ × SentPacket)) → AreCounts m → (retransmit_queue now id m).2 ≡ is_exhausted now m
  unfolding retransmit_queue is_exhausted
  timed_out-retransmit_queue [] h = refl
  timed_out-retransmit_queue ((seq, p) ∷ m) h = ground (arith, timed_out-retransmit_queue m h.1)

  overdue-retransmit_queue :
      (m : List (ℕ × SentPacket))
      → AreCounts m
      → is_exhausted now m ≡ false
      → (retransmit_queue now id m).1 ≡ overdue now id m
  unfolding retransmit_queue is_exhausted overdue
  overdue-retransmit_queue [] h e = refl
  overdue-retransmit_queue ((seq, p) ∷ m) h e = ground (arith, overdue-retransmit_queue m h.1)

-- On a TCP stream the timer keeps every unacknowledged packet with its bytes; it gives the stream
-- up exactly when an overdue packet was already sent again 100 times, and otherwise sends exactly
-- the packets again that have waited for more than 200 ms, in the order of their numbers.
pub tick_stream_tcp :
    (now id : ℕ) (s : StreamState)
    → s.mode ≡ StreamMode.tcp
    → AreCounts s.write_queue
    → let result = tick_stream now id s in
      (payloads result.0.write_queue ≡ payloads s.write_queue)
      × (result.2 ≡ is_exhausted now s.write_queue)
      × (is_exhausted now s.write_queue ≡ false → result.1 ≡ overdue now id s.write_queue)
unfolding tick_stream
tick_stream_tcp now id s tcp h =
    let q = s.write_queue in
    (
      ground (arith, payloads-retransmit_queue now id q),
      ground (arith, timed_out-retransmit_queue now id q h),
      λ e. ground (arith, overdue-retransmit_queue now id q h e),
    )

-- On a UDP stream the timer sends nothing and gives up nothing: it keeps exactly the packets that
-- were sent less than 30 s ago.
pub tick_stream_udp :
    (now id k : ℕ) (s : StreamState)
    → s.mode ≡ StreamMode.udp
    → Above 1 s.write_queue
    → let result = tick_stream now id s in
      (BTreeMap.get k result.0.write_queue ≡ elim (BTreeMap.get k s.write_queue) [
        | none ↦ none
        | some p ↦ if ltb (duration_since now p.sent_at) (secs 30) then some p else none
      ])
      × (result.1 ≡ [])
      × (result.2 ≡ false)
unfolding tick_stream is_recent
tick_stream_udp now id k s udp h = (
  ground (arith, BTreeMap.get-retain (λ (_ : ℕ) p. is_recent now p) 1 k s.write_queue h),
  ground arith,
  ground arith,
)
