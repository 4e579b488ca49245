-- ===== src/Transport/Stream/Acks.antt =====
-- `build_ack` at the receiver against `handle_ack` at the sender.
use rathole_ng.Prelude.{
  ℕ, zero, suc, ◌+◌, ◌-◌, ◌^◌, ◌≤◌, ◌<◌, ◌≡◌, refl, ap, Bool, true, false, not, ◌&&◌, none, List,
  [], ◌∷◌, arith, ltb, if◌then◌else◌, ◌∙◌, bit, bit_or-pow, bit-add-pow_lt, bit-add-pow_self,
  bit_above, pow_suc, bit_or, ℕ_discrete,
}
use rathole_ng.Collections.BTreeMap
use rathole_ng.Collections.BTreeMap.{Above, Below}
use rathole_ng.Transport.Stream.{
  StreamState, SentPacket, add64, ack_bitmap, build_ack, is_unacked, collect_gaps, handle_ack,
  wake_writer,
}
use rathole_ng.Transport.Stream.Drain.{has}
use rathole_ng.Transport.Stream.Receive.{IsReceiver}
use rathole_ng.Transport.Stream.Delivery.{member}

-- The bits after one more round of the loop.
round_bit :
    (c : Bool) (n k a : ℕ) → a < 2 ^ n → k < n → bit (if c then bit_or a (2 ^ n) else a) k ≡ bit a k
round_bit true n k a h lt = rw (bit_or-pow n a h) (bit-add-pow_lt k n a lt)
round_bit false n k a h lt = refl

round_bit_self :
    (c : Bool) (n a : ℕ)
    → a < 2 ^ n
    → bit (if c then bit_or a (2 ^ n) else a) n ≡ (if c then 1 else 0)
round_bit_self true n a h = rw (bit_or-pow n a h) (bit-add-pow_self n a h)
round_bit_self false n a h = bit_above n a h

module _ (buffer : List (ℕ × List ℕ)) (ack : ℕ) where
  ack_bitmap-lt : (n : ℕ) → ack_bitmap buffer ack n < 2 ^ n
  unfolding ack_bitmap
  ack_bitmap-lt zero = omega arith
  ack_bitmap-lt (suc n) =
      ground (arith, ack_bitmap-lt n, pow_suc n, bit_or-pow n (ack_bitmap buffer ack n))

  bit-ack_bitmap :
      (n k : ℕ)
      → k < n
      → bit (ack_bitmap buffer ack n) k
        ≡ (if BTreeMap.contains_key (add64 (add64 ack 1) k) buffer then 1 else 0)
  unfolding ack_bitmap
  bit-ack_bitmap zero k h = absurd (omega arith)
  bit-ack_bitmap (suc n) k h = elim (ℕ_discrete k n) [
    | yes e ↦ rw e (round_bit_self (waits n) n (ack_bitmap buffer ack n) (ack_bitmap-lt n))
    | no ne ↦
        round_bit (waits n) n k (ack_bitmap buffer ack n) (ack_bitmap-lt n) (omega arith)
        ∙ bit-ack_bitmap n k (omega arith)
  ]
    where
      waits : ℕ → Bool
      waits i = BTreeMap.contains_key (add64 (add64 ack 1) i) buffer

module _ (s : StreamState) (k : ℕ) (r : IsReceiver s) where
  ack_next : add64 (s.next_read_seq - 1) 1 ≡ s.next_read_seq
  ack_next = omega (arith, r.from_one, r.cursor_u64)

  window_bit :
      s.next_read_seq + 64 ≤ 2 ^ 64
      → s.next_read_seq ≤ k
      → k < s.next_read_seq + 64
      → bit (ack_bitmap s.read_buffer (s.next_read_seq - 1) 64) (k - add64 (s.next_read_seq - 1) 1)
        ≡ (if BTreeMap.contains_key k s.read_buffer then 1 else 0)
  window_bit room le lt =
      let e : add64 (add64 (s.next_read_seq - 1) 1) (k - s.next_read_seq) ≡ k =
        omega (arith, ack_next) in
      rw ack_next (
        bit-ack_bitmap s.read_buffer (s.next_read_seq - 1) 64 (k - s.next_read_seq) (omega arith)
        ∙ ap (λ (j : ℕ). if BTreeMap.contains_key j s.read_buffer then 1 else 0) e)

-- The sender keeps exactly the packets that the receiver's acknowledgement does not report: those
-- that the receiver lacks, and those past the window of 64 packets from its cursor.
pub is_unacked-build_ack :
    (s : StreamState) (k : ℕ)
    → IsReceiver s
    → s.next_read_seq + 64 ≤ 2 ^ 64
    → is_unacked (build_ack s).0 (build_ack s).1 k ≡ not (has s k && ltb k (s.next_read_seq + 64))
unfolding is_unacked build_ack has
is_unacked-build_ack s k r room = ground (arith, ack_next s k r, window_bit s k r room)

-- The sending half: the queue holds packets that were sent, in the order of their numbers.
pub record IsSender (s : StreamState) : Type 0 where
  pub cursor_u64 : s.next_write_seq < 2 ^ 64
  pub ordered : Above 1 s.write_queue
  pub sent : Below s.next_write_seq s.write_queue

member-collect_gaps :
    (ack n k : ℕ) (m : List (ℕ × SentPacket))
    → Above n m
    → Below (2 ^ 64) m
    → member k (collect_gaps ack m)
      ≡ (BTreeMap.contains_key k m && (ltb ack k && ltb (k - add64 ack 1) 64))
unfolding collect_gaps member BTreeMap.contains_key
member-collect_gaps ack n k [] h b = refl
member-collect_gaps ack n k ((seq, p) ∷ m) h b = ground (
  arith,
  member-collect_gaps ack (suc seq) k m h.1 b.1,
  BTreeMap.contains_key_below (suc seq) k m h.1,
  BTreeMap.contains_key_above (2 ^ 64) k m b.1,
)

pub write_queue-wake_writer : (s : StreamState) → (wake_writer s).0.write_queue ≡ s.write_queue
unfolding wake_writer
write_queue-wake_writer s = ground arith

ack-build_ack : (r : StreamState) → (build_ack r).0 ≡ r.next_read_seq - 1
unfolding build_ack
ack-build_ack r = refl

has_below_cursor : (r : StreamState) (k : ℕ) → k < r.next_read_seq → has r k ≡ true
unfolding has
has_below_cursor r k h = ground arith

-- The queue that `handle_ack` keeps.
kept : StreamState → ℕ → ℕ → List (ℕ × SentPacket)
kept t ack ack_bits = BTreeMap.retain (λ seq _. is_unacked ack ack_bits seq) t.write_queue

module _ (t r : StreamState) (k : ℕ) (ts : IsSender t) (rs : IsReceiver r)
    (room : r.next_read_seq + 64 ≤ 2 ^ 64) where
  get-kept :
      BTreeMap.get k (kept t (build_ack r).0 (build_ack r).1)
      ≡ (if has r k && ltb k (r.next_read_seq + 64) then none else BTreeMap.get k t.write_queue)
  unfolding kept
  get-kept = ground (
    arith,
    BTreeMap.get-retain (λ seq (_ : SentPacket). is_unacked (build_ack r).0 (build_ack r).1 seq) 1 k
        t.write_queue ts.ordered,
    is_unacked-build_ack r k rs room,
  )

  member-kept :
      member k (collect_gaps (build_ack r).0 (kept t (build_ack r).0 (build_ack r).1))
      ≡ (BTreeMap.contains_key k t.write_queue && (not (has r k) && ltb k (r.next_read_seq + 64)))
  member-kept = ground (
    arith,
    get-kept,
    BTreeMap.contains_key-eq k t.write_queue,
    BTreeMap.contains_key-eq k (kept t (build_ack r).0 (build_ack r).1),
    member-collect_gaps (build_ack r).0 1 k (kept t (build_ack r).0 (build_ack r).1)
        (unfold kept in BTreeMap.retain-Above _ 1 t.write_queue ts.ordered)
        (unfold kept in
          BTreeMap.retain-Below _ (2 ^ 64) t.write_queue
            (BTreeMap.Below-mono t.write_queue (omega (arith, ts.cursor_u64)) ts.sent)),
    ack-build_ack r,
    ack_next r k rs,
    has_below_cursor r k,
  )

-- An acknowledgement takes from the sender's queue exactly the packets in the receiver's window
-- that the receiver holds, and has sent again exactly those in the window that it lacks.
pub handle_ack-build_ack :
    (t r : StreamState) (k : ℕ)
    → IsSender t
    → IsReceiver r
    → r.next_read_seq + 64 ≤ 2 ^ 64
    → let result = handle_ack t (build_ack r).0 (build_ack r).1 in
      (BTreeMap.get k result.0.write_queue
        ≡ (if has r k && ltb k (r.next_read_seq + 64) then none else BTreeMap.get k t.write_queue))
      × (member k result.1 ≡ (
          BTreeMap.contains_key k t.write_queue && (not (has r k) && ltb k (r.next_read_seq + 64))))
unfolding handle_ack kept
handle_ack-build_ack t r k ts rs room = (
  ap (BTreeMap.get k) (write_queue-wake_writer _) ∙ get-kept t r k ts rs room,
  member-kept t r k ts rs room,
)
