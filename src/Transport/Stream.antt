-- ===== src/Transport/Stream.antt =====
-- src/transport/reliability.rs: `StreamState`, the two ends of one reliable stream.
-- Times are in nanoseconds. A waker is a number; each operation returns the wakers that it wakes.
pub mod Drain
pub mod Receive
pub mod Delivery
pub mod Acks
pub mod Nack
mod Tests
use rathole_ng.Prelude.{
  ℕ, zero, suc, ◌+◌, ◌-◌, ◌/◌, ◌%◌, ◌^◌, ◌≡◌, Bool, true, false, not, ◌&&◌, Option, none, some,
  List, [], ◌∷◌, ◌++◌, bit_or, ltb, leb, ◌==◌, if◌then◌else◌, length,
}
use rathole_ng.Collections.BTreeMap

pub record SentPacket : Type 0 where
  pub payload : List ℕ
  pub sent_at : ℕ
  pub retransmits : ℕ

pub data StreamMode : Type 0 where
  tcp udp : StreamMode

abbrev pub Waker : Type 0
Waker = ℕ

pub record StreamState : Type 0 where
  pub mode : StreamMode
  pub established : Bool
  pub next_write_seq : ℕ
  pub next_read_seq : ℕ
  pub write_queue : List (ℕ × SentPacket)
  pub read_buffer : List (ℕ × List ℕ)
  pub read_buf_bytes : List ℕ
  pub read_waker : Option Waker
  pub write_waker : Option Waker

-- `u64` addition, which wraps in a release build.
abbrev pub add64 : ℕ → ℕ → ℕ
add64 a b = (a + b) % 2 ^ 64

-- `mode == StreamMode::Udp`
abbrev pub is_udp : StreamMode → Bool
is_udp StreamMode.tcp = false
is_udp StreamMode.udp = true

unfoldable pub new : StreamMode → StreamState
new mode = record {
  mode = mode;
  established = false;
  next_write_seq = 1;
  next_read_seq = 1;
  write_queue = [];
  read_buffer = [];
  read_buf_bytes = [];
  read_waker = none;
  write_waker = none;
}

-- The bitmap after the first `n` rounds of the loop in `build_ack`.
unfoldable pub ack_bitmap : List (ℕ × List ℕ) → ℕ → ℕ → ℕ
ack_bitmap buffer ack zero = 0
ack_bitmap buffer ack (suc i) =
    let bits = ack_bitmap buffer ack i in
    if BTreeMap.contains_key (add64 (add64 ack 1) i) buffer then bit_or bits (2 ^ i) else bits

unfoldable pub build_ack : StreamState → ℕ × ℕ
build_ack s = let ack = s.next_read_seq - 1 in (ack, ack_bitmap s.read_buffer ack 64)

-- The closure of `retain` in `handle_ack`: true for the packets that stay.
unfoldable pub is_unacked : ℕ → ℕ → ℕ → Bool
is_unacked ack ack_bits seq =
    if leb seq ack
    then false
    else (let offset = seq - add64 ack 1 in
        if ltb offset 64 && (ack_bits / 2 ^ offset % 2 == 1) then false else true)

-- The loop that collects the gaps, with its `continue` and its `break`.
unfoldable pub collect_gaps : ℕ → List (ℕ × SentPacket) → List ℕ
collect_gaps ack [] = []
collect_gaps ack ((seq, _) ∷ m) =
    let rest = collect_gaps ack m in
    if leb seq ack then rest else if leb 64 (seq - add64 ack 1) then [] else seq ∷ rest

-- `if write_queue.len() < 1024 { if let Some(w) = write_waker.take() { w.wake(); } }`
unfoldable pub wake_writer : StreamState → StreamState × List Waker
wake_writer s =
    if ltb (length s.write_queue) 1024
    then (record s { write_waker = none }, elim s.write_waker [ none ↦ [] | some w ↦ w ∷ [] ])
    else (s, [])

-- The new state, the sequence numbers to retransmit, and the wakers that are woken.
unfoldable pub handle_ack : StreamState → ℕ → ℕ → StreamState × List ℕ × List Waker
handle_ack s ack ack_bits =
    let queue = BTreeMap.retain (λ seq _. is_unacked ack ack_bits seq) s.write_queue in
    let retransmit = collect_gaps ack queue in
    let (s', woken) = wake_writer (record s { write_queue = queue }) in (s', retransmit, woken)

-- `for seq in start..=end`, with the number of rounds left.
unfoldable pub collect_range : List (ℕ × SentPacket) → ℕ → ℕ → List ℕ
collect_range queue seq zero = []
collect_range queue seq (suc n) =
    let rest = collect_range queue (seq + 1) n in
    if BTreeMap.contains_key seq queue then seq ∷ rest else rest

unfoldable pub handle_nack : StreamState → ℕ → ℕ → StreamState × List ℕ × List Waker
handle_nack s start end =
    let wanted = collect_range s.write_queue start (end + 1 - start) in
    let retransmit = if is_udp s.mode then wanted else [] in
    let (s', woken) = wake_writer s in (s', retransmit, woken)

-- `while let Some(data) = self.read_buffer.remove(&self.next_read_seq)`, on fuel.
unfoldable pub drain : ℕ → StreamState → StreamState
drain zero s = s
drain (suc fuel) s = elim (BTreeMap.get s.next_read_seq s.read_buffer) [
  | none ↦ s
  | some bytes ↦ drain fuel (record s {
    read_buffer = BTreeMap.remove s.next_read_seq s.read_buffer;
    read_buf_bytes = s.read_buf_bytes ++ bytes;
    next_read_seq = add64 s.next_read_seq 1;
  })
]

-- The new state, the range to ask for again, and the wakers that are woken.
unfoldable pub push_data : StreamState → ℕ → List ℕ → StreamState × Option (ℕ × ℕ) × List Waker
push_data s seq bytes =
    if ltb seq s.next_read_seq
    then (s, none, [])
    else if BTreeMap.contains_key seq s.read_buffer
    then (s, none, [])
    else (let nack =
          if is_udp s.mode && ltb s.next_read_seq seq
          then some (s.next_read_seq, seq - 1)
          else none in
        let buffer = BTreeMap.insert seq bytes s.read_buffer in
        let s' = drain (length buffer) (record s { read_buffer = buffer }) in
        (record s' { read_waker = none }, nack, elim s'.read_waker [ none ↦ [] | some w ↦ w ∷ [] ]))
