-- ===== src/Transport/Stream/Delivery.antt =====
-- In-order, exactly-once delivery by `push_data`, whatever the network does to the packets.
use rathole_ng.Prelude.{
  ℕ, zero, suc, ◌-◌, ◌^◌, ◌≤◌, ◌<◌, ◌≡◌, refl, sym, Bool, true, false, ◌||◌, some, List, [], ◌∷◌,
  ◌++◌, arith, ◌==◌, length, append_assoc,
}
use rathole_ng.Collections.BTreeMap
use rathole_ng.Transport.Stream.{StreamState, StreamMode, add64, push_data, new}
use rathole_ng.Transport.Stream.Drain.{has, Ready, advance, advance_next, drain_inv}
use rathole_ng.Transport.Stream.Receive.{
  IsReceiver, inserted, drained, push_cases, inserted-Ready, push_data-IsReceiver, has-push_data,
  new-IsReceiver, cursor_missing,
}

-- The bytes of the packets 1 to `n`, where packet `k` carries `chunk k`.
unfoldable pub upto : (ℕ → List ℕ) → ℕ → List ℕ
upto chunk zero = []
upto chunk (suc n) = upto chunk n ++ chunk (suc n)

-- What the reader took and what waits for it are the packets below the cursor, in order; what is
-- buffered is what was sent.
pub record Carries (chunk : ℕ → List ℕ) (taken : List ℕ) (s : StreamState) : Type 0 where
  pub in_order : taken ++ s.read_buf_bytes ≡ upto chunk (s.next_read_seq - 1)
  pub buffered : (k : ℕ) (d : List ℕ) → BTreeMap.get k s.read_buffer ≡ some d → d ≡ chunk k

module _ (chunk : ℕ → List ℕ) (taken : List ℕ) where
  upto_step : (n : ℕ) → 1 ≤ n → upto chunk n ≡ upto chunk (n - 1) ++ chunk n
  unfolding upto
  upto_step zero h = absurd (omega arith)
  upto_step (suc n) h = let e : suc n - 1 ≡ n = omega arith in rw e refl

  advance-Carries :
      (s : StreamState) (bytes : List ℕ)
      → BTreeMap.get s.next_read_seq s.read_buffer ≡ some bytes
      → Ready s
      → Carries chunk taken s
      → Carries chunk taken (advance s bytes)
  unfolding advance
  advance-Carries s bytes e r c = record {
    in_order =
        let cursor : add64 s.next_read_seq 1 - 1 ≡ s.next_read_seq =
          omega (arith, advance_next s bytes e r) in
        rw
          (
            cursor,
            upto_step s.next_read_seq r.from_one,
            ← c.buffered s.next_read_seq bytes e,
            ← c.in_order,
          )
          (sym (append_assoc taken s.read_buf_bytes bytes));
    buffered = λ k d h.
        ground (arith, BTreeMap.get-remove s.next_read_seq k s.read_buffer, c.buffered k d);
  }

  -- A packet with the right bytes keeps the delivered bytes in order.
  pub push_data-Carries :
      (s : StreamState) (seq : ℕ)
      → IsReceiver s
      → seq < 2 ^ 64 - 1
      → Carries chunk taken s
      → Carries chunk taken (push_data s seq (chunk seq)).0
  unfolding drained inserted
  push_data-Carries s seq r lt c =
      push_cases (λ t. Carries chunk taken t.0) s seq (chunk seq) (λ old. c)
        λ fresh.
          let t =
            (drain_inv (Carries chunk taken) advance-Carries
              (length (BTreeMap.insert seq (chunk seq) s.read_buffer)) (inserted s seq (chunk seq))
              (inserted-Ready s seq (chunk seq) r fresh lt)
              (record {
                in_order = c.in_order;
                buffered = λ k d h.
                    ground
                      (arith, BTreeMap.get-insert seq k (chunk seq) s.read_buffer, c.buffered k d);
              })).1 in
          record { in_order = t.in_order; buffered = t.buffered }

-- The packets arrive with the given sequence numbers, in that order.
unfoldable pub receive : (ℕ → List ℕ) → List ℕ → StreamState → StreamState
receive chunk [] s = s
receive chunk (k ∷ ks) s = receive chunk ks (push_data s k (chunk k)).0

unfoldable pub member : ℕ → List ℕ → Bool
member k [] = false
member k (j ∷ js) = j == k || member k js

-- No number reaches the last one of a `u64`.
abbrev pub AreSeqs : List ℕ → Type 0
AreSeqs [] = Unit
AreSeqs (k ∷ ks) = (k < 2 ^ 64 - 1) × AreSeqs ks

module _ (chunk : ℕ → List ℕ) where
  receive-IsReceiver :
      (ks : List ℕ) (s : StreamState) → AreSeqs ks → IsReceiver s → IsReceiver (receive chunk ks s)
  unfolding receive
  receive-IsReceiver [] s b r = r
  receive-IsReceiver (k ∷ ks) s b r =
      receive-IsReceiver ks _ b.1 (push_data-IsReceiver s k (chunk k) r b.0)

  receive-Carries :
      (taken ks : List ℕ) (s : StreamState)
      → AreSeqs ks
      → IsReceiver s
      → Carries chunk taken s
      → Carries chunk taken (receive chunk ks s)
  unfolding receive
  receive-Carries taken [] s b r c = c
  receive-Carries taken (k ∷ ks) s b r c =
      receive-Carries taken ks _ b.1 (push_data-IsReceiver s k (chunk k) r b.0)
        (push_data-Carries chunk taken s k r b.0 c)

  has-receive :
      (ks : List ℕ) (s : StreamState) (k : ℕ)
      → AreSeqs ks
      → IsReceiver s
      → has (receive chunk ks s) k ≡ (member k ks || has s k)
  unfolding receive member
  has-receive [] s k b r = refl
  has-receive (j ∷ ks) s k b r = ground (
    arith,
    has-receive ks (push_data s j (chunk j)).0 k b.1 (push_data-IsReceiver s j (chunk j) r b.0),
    has-push_data s j (chunk j) k r b.0,
  )

pub new-Carries : (chunk : ℕ → List ℕ) (mode : StreamMode) → Carries chunk [] (new mode)
unfolding new upto BTreeMap.get
new-Carries chunk mode = record { in_order = refl; buffered = λ k d h. absurd (ground arith) }

pub has-new : (mode : StreamMode) (k : ℕ) → 1 ≤ k → has (new mode) k ≡ false
unfolding has new BTreeMap.contains_key
has-new mode k h = ground arith

has_below_cursor : (s : StreamState) (k : ℕ) → k < s.next_read_seq → has s k ≡ true
unfolding has
has_below_cursor s k h = ground arith

-- A new stream has delivered, after any packets in any order, repeated or not, exactly the bytes
-- of the packets 1 to `n` in order, where `n + 1` is the first number that has not arrived.
pub receive_in_order :
    (chunk : ℕ → List ℕ) (mode : StreamMode) (ks : List ℕ)
    → AreSeqs ks
    → let s = receive chunk ks (new mode) in
      (s.read_buf_bytes ≡ upto chunk (s.next_read_seq - 1))
      × ((k : ℕ) → 1 ≤ k → k < s.next_read_seq → member k ks ≡ true)
      × (member s.next_read_seq ks ≡ false)
receive_in_order chunk mode ks b =
    let r = new-IsReceiver mode in
    let s = receive chunk ks (new mode) in
    let rs = receive-IsReceiver chunk ks (new mode) b r in
    (
      (receive-Carries chunk [] ks (new mode) b r (new-Carries chunk mode)).in_order,
      λ k one below. ground (
        arith,
        has-receive chunk ks (new mode) k b r,
        has-new mode k one,
        has_below_cursor s k below,
      ),
      ground (arith, has-receive chunk ks (new mode) s.next_read_seq b r, cursor_missing s rs),
    )
