-- ===== src/Transport/Stream/Drain.antt =====
-- The loop that moves the contiguous run of the receive buffer into the byte stream.
use rathole_ng.Prelude.{
  ℕ, zero, suc, ◌+◌, ◌-◌, ◌^◌, ◌≤◌, ◌<◌, ◌≡◌, refl, subst, Bool, ◌||◌, none, some, List, ◌++◌,
  arith, ltb, length, inl, inr, Option-cases, ◌∙◌,
}
use rathole_ng.Collections.BTreeMap
use rathole_ng.Collections.BTreeMap.{Above, Below}
use rathole_ng.Transport.Stream.{StreamState, add64, drain}

-- The receiver holds the packet: delivered, or waiting in the buffer.
unfoldable pub has : StreamState → ℕ → Bool
has s k = ltb k s.next_read_seq || BTreeMap.contains_key k s.read_buffer

-- What the loop needs of its start.
pub record Ready (s : StreamState) : Type 0 where
  pub from_one : 1 ≤ s.next_read_seq
  pub cursor_u64 : s.next_read_seq < 2 ^ 64
  pub ordered : Above s.next_read_seq s.read_buffer
  pub bounded : Below (2 ^ 64 - 1) s.read_buffer

-- One round of the loop.
unfoldable pub advance : StreamState → List ℕ → StreamState
advance s bytes = record s {
  read_buffer = BTreeMap.remove s.next_read_seq s.read_buffer;
  read_buf_bytes = s.read_buf_bytes ++ bytes;
  next_read_seq = add64 s.next_read_seq 1;
}

module _ (s : StreamState) (bytes : List ℕ)
    (found : BTreeMap.get s.next_read_seq s.read_buffer ≡ some bytes) (r : Ready s) where
  next_lt : s.next_read_seq + 1 < 2 ^ 64
  next_lt =
      omega
        (arith, BTreeMap.get-lt (2 ^ 64 - 1) s.next_read_seq bytes s.read_buffer r.bounded found)

  pub advance_next : (advance s bytes).next_read_seq ≡ s.next_read_seq + 1
  unfolding advance
  advance_next = omega (arith, next_lt)

  pub advance-Ready : Ready (advance s bytes)
  unfolding advance
  advance-Ready = record {
    from_one = omega (arith, next_lt);
    cursor_u64 = omega arith;
    ordered =
        let e : suc s.next_read_seq ≡ add64 s.next_read_seq 1 = omega (arith, next_lt) in
        subst (λ n. Above n (BTreeMap.remove s.next_read_seq s.read_buffer)) e
          (BTreeMap.remove-Above-suc s.next_read_seq s.read_buffer r.ordered);
    bounded = BTreeMap.remove-Below _ s.next_read_seq s.read_buffer r.bounded;
  }

  pub has-advance : (k : ℕ) → has (advance s bytes) k ≡ has s k
  unfolding has advance
  has-advance k = ground (
    arith,
    next_lt,
    BTreeMap.contains_key-remove s.next_read_seq k s.read_buffer,
    BTreeMap.contains_key-get s.next_read_seq bytes s.read_buffer found,
  )

-- What holds at the start and is kept by a round holds at the end.
pub drain_inv {ℓ} :
    (P : StreamState → Type ℓ)
    → ((s : StreamState) (bytes : List ℕ)
        → BTreeMap.get s.next_read_seq s.read_buffer ≡ some bytes
        → Ready s
        → P s
        → P (advance s bytes))
    → (fuel : ℕ) (s : StreamState) → Ready s
    → P s
    → Ready (drain fuel s) × P (drain fuel s)
unfolding drain advance
drain_inv P keep zero s r h = (r, h)
drain_inv P keep (suc fuel) s r h =
    elim (Option-cases (BTreeMap.get s.next_read_seq s.read_buffer)) [
      | inl e ↦ rw (e, drain) (r, h)
      | inr (bytes, e) ↦
          rw (e, drain)
            (drain_inv P keep fuel (advance s bytes) (advance-Ready s bytes e r)
              (keep s bytes e r h))
    ]

-- With fuel for every buffered packet the loop ends by its own test.
pub drain_done :
    (fuel : ℕ) (s : StreamState)
    → length s.read_buffer ≤ fuel
    → BTreeMap.get (drain fuel s).next_read_seq (drain fuel s).read_buffer ≡ none
unfolding drain advance
drain_done zero s h = elim (Option-cases (BTreeMap.get s.next_read_seq s.read_buffer)) [
  | inl e ↦ e
  | inr (bytes, e) ↦
      absurd (omega (arith, BTreeMap.length-remove-lt s.next_read_seq bytes s.read_buffer e))
]
drain_done (suc fuel) s h = elim (Option-cases (BTreeMap.get s.next_read_seq s.read_buffer)) [
  | inl e ↦ rw (e, drain) e
  | inr (bytes, e) ↦
      rw (e, drain)
        (drain_done fuel (advance s bytes)
          (omega (arith, BTreeMap.length-remove-lt s.next_read_seq bytes s.read_buffer e)))
]

pub has-drain : (fuel : ℕ) (s : StreamState) (k : ℕ) → Ready s → has (drain fuel s) k ≡ has s k
has-drain fuel s k r =
    (drain_inv (λ t. has t k ≡ has s k) (λ t bytes e rt h. has-advance t bytes e rt k ∙ h) fuel s r
      refl).1

-- The sending half is not touched.
pub record SameSender (s t : StreamState) : Type 0 where
  pub same_mode : t.mode ≡ s.mode
  pub same_cursor : t.next_write_seq ≡ s.next_write_seq
  pub same_queue : t.write_queue ≡ s.write_queue

pub drain-SameSender : (fuel : ℕ) (s : StreamState) → SameSender s (drain fuel s)
unfolding drain advance
drain-SameSender zero s = record { same_mode = refl; same_cursor = refl; same_queue = refl }
drain-SameSender (suc fuel) s = elim (Option-cases (BTreeMap.get s.next_read_seq s.read_buffer)) [
  | inl e ↦ rw (e, drain) (record { same_mode = refl; same_cursor = refl; same_queue = refl })
  | inr (bytes, e) ↦
      rw (e, drain)
        (let h = drain-SameSender fuel (advance s bytes) in
          record {
            same_mode = h.same_mode;
            same_cursor = h.same_cursor;
            same_queue = h.same_queue;
          })
]
