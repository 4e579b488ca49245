-- ===== src/Transport/Stream/Receive.antt =====
-- `push_data`: which packets the receiver holds, what it keeps true, and what it asks for again.
use rathole_ng.Prelude.{
  ℕ, suc, ◌+◌, ◌-◌, ◌^◌, ◌≤◌, ◌<◌, ◌≡◌, refl, subst, true, false, ◌||◌, ◌&&◌, Option, none, some,
  List, [], ◌∷◌, arith, ltb, ◌==◌, if◌then◌else◌, length, inl, inr, Bool-cases, ◌∙◌, ==_iff,
}
use rathole_ng.Collections.BTreeMap
use rathole_ng.Collections.BTreeMap.{Above, Below}
use rathole_ng.Transport.Stream.{StreamState, StreamMode, is_udp, drain, push_data, new, Waker}
use rathole_ng.Transport.Stream.Drain.{
  has, Ready, drain_inv, drain_done, has-drain, SameSender, drain-SameSender,
}

-- The receiving half between two operations: no contiguous packet waits in the buffer.
pub record IsReceiver (s : StreamState) : Type 0 where
  pub from_one : 1 ≤ s.next_read_seq
  pub cursor_u64 : s.next_read_seq < 2 ^ 64
  pub ahead : Above (s.next_read_seq + 1) s.read_buffer
  pub bounded : Below (2 ^ 64 - 1) s.read_buffer

pub new-IsReceiver : (mode : StreamMode) → IsReceiver (new mode)
unfolding new
new-IsReceiver mode = record {
  from_one = omega arith;
  cursor_u64 = omega arith;
  ahead = tt;
  bounded = tt;
}

unfoldable pub inserted : StreamState → ℕ → List ℕ → StreamState
inserted s seq bytes = record s { read_buffer = BTreeMap.insert seq bytes s.read_buffer }

unfoldable pub drained : StreamState → ℕ → List ℕ → StreamState
drained s seq bytes =
    drain (length (BTreeMap.insert seq bytes s.read_buffer)) (inserted s seq bytes)

-- A packet that the receiver holds changes nothing; any other is put in the buffer, which is drained.
pub push_cases {ℓ} :
    (P : StreamState × Option (ℕ × ℕ) × List Waker → Type ℓ) (s : StreamState) (seq : ℕ)
    (bytes : List ℕ)
    → (has s seq ≡ true → P (s, none, []))
    → (has s seq ≡ false
        → P (
          record (drained s seq bytes) { read_waker = none },
          if is_udp s.mode && ltb s.next_read_seq seq
              then some (s.next_read_seq, seq - 1)
              else none,
          elim (drained s seq bytes).read_waker [ none ↦ [] | some w ↦ w ∷ [] ],
        ))
    → P (push_data s seq bytes)
unfolding push_data has drained inserted
push_cases P s seq bytes old fresh = elim (Bool-cases (ltb seq s.next_read_seq)) [
  | inl lt ↦ rw lt (old (rw lt refl))
  | inr ge ↦ elim (Bool-cases (BTreeMap.contains_key seq s.read_buffer)) [
    | inl hit ↦ rw (ge, hit) (old (rw (ge, hit) refl))
    | inr miss ↦ rw (ge, miss) (fresh (rw (ge, miss) refl))
  ]
]

module _ (s : StreamState) (seq : ℕ) (bytes : List ℕ) (r : IsReceiver s)
    (fresh : has s seq ≡ false) where
  pub fresh-le : s.next_read_seq ≤ seq
  unfolding has
  fresh-le = ground arith

  pub has-inserted : (k : ℕ) → has (inserted s seq bytes) k ≡ (seq == k || has s k)
  unfolding has inserted
  has-inserted k = ground (arith, BTreeMap.contains_key-insert seq k bytes s.read_buffer)

  pub inserted-Ready : seq < 2 ^ 64 - 1 → Ready (inserted s seq bytes)
  unfolding inserted
  inserted-Ready lt = record {
    from_one = r.from_one;
    cursor_u64 = r.cursor_u64;
    ordered =
        BTreeMap.insert-Above s.next_read_seq seq bytes s.read_buffer fresh-le
          (BTreeMap.Above-mono {a = s.next_read_seq} s.read_buffer (omega arith) r.ahead);
    bounded = BTreeMap.insert-Below (2 ^ 64 - 1) seq bytes s.read_buffer lt r.bounded;
  }

  pub drained-Ready : seq < 2 ^ 64 - 1 → Ready (drained s seq bytes)
  unfolding drained
  drained-Ready lt = (drain_inv (λ _. Unit {0}) (λ t b e rt h. tt) _ _ (inserted-Ready lt) tt).0

  drained-IsReceiver : seq < 2 ^ 64 - 1 → IsReceiver (drained s seq bytes)
  unfolding drained inserted
  drained-IsReceiver lt =
      let t = drained-Ready lt in
      record {
        from_one = t.from_one;
        cursor_u64 = t.cursor_u64;
        ahead =
            let n = (drained s seq bytes).next_read_seq in
            let e : suc n ≡ n + 1 = omega arith in
            subst (λ n. Above n (drained s seq bytes).read_buffer) e
              (BTreeMap.Above-of_get-none n (drained s seq bytes).read_buffer t.ordered (
                drain_done (length (BTreeMap.insert seq bytes s.read_buffer)) (inserted s seq bytes)
                  (omega arith)));
        bounded = t.bounded;
      }

-- Each packet that arrives keeps the receiver valid, in whatever order they come.
pub push_data-IsReceiver :
    (s : StreamState) (seq : ℕ) (bytes : List ℕ)
    → IsReceiver s
    → seq < 2 ^ 64 - 1
    → IsReceiver (push_data s seq bytes).0
push_data-IsReceiver s seq bytes r lt =
    push_cases (λ t. IsReceiver t.0) s seq bytes (λ old. r)
      λ fresh.
        let t = drained-IsReceiver s seq bytes r fresh lt in
        record {
          from_one = t.from_one;
          cursor_u64 = t.cursor_u64;
          ahead = t.ahead;
          bounded = t.bounded;
        }

has_again : (s : StreamState) (seq k : ℕ) → has s seq ≡ true → has s k ≡ (seq == k || has s k)
has_again s seq k old = ground (arith, ==_iff seq k)

-- After a packet the receiver holds that packet and what it held before, and no other.
pub has-push_data :
    (s : StreamState) (seq : ℕ) (bytes : List ℕ) (k : ℕ)
    → IsReceiver s
    → seq < 2 ^ 64 - 1
    → has (push_data s seq bytes).0 k ≡ (seq == k || has s k)
unfolding has drained inserted
has-push_data s seq bytes k r lt =
    push_cases (λ t. has t.0 k ≡ (seq == k || has s k)) s seq bytes (λ old. has_again s seq k old)
      λ fresh.
        has-drain (length (BTreeMap.insert seq bytes s.read_buffer)) (inserted s seq bytes) k
          (inserted-Ready s seq bytes r fresh lt)
        ∙ has-inserted s seq bytes r fresh k

nack_fields :
    (s : StreamState) (seq : ℕ) (bytes : List ℕ) (start end : ℕ)
    → (push_data s seq bytes).1 ≡ some (start, end)
    → (start ≡ s.next_read_seq) × (start < seq) × (end + 1 ≡ seq) × (s.mode ≡ StreamMode.udp)
unfolding push_data
nack_fields s seq bytes start end e = ground arith

-- The packet at the cursor is missing.
pub cursor_missing : (s : StreamState) → IsReceiver s → has s s.next_read_seq ≡ false
unfolding has
cursor_missing s r =
    ground (
      arith,
      BTreeMap.contains_key_below (s.next_read_seq + 1) s.next_read_seq s.read_buffer r.ahead,
    )

missing_range :
    (s : StreamState) (k start end : ℕ)
    → start ≡ s.next_read_seq
    → k ≤ end
    → has s k ≡ false
    → (start ≤ k) × (k ≤ end)
unfolding has
missing_range s k start end e le missing = ground arith

-- The range that is asked for again starts at the first packet missing, ends below the one that
-- came, and so covers every packet below it that is missing.
pub push_data_nack :
    (s : StreamState) (seq : ℕ) (bytes : List ℕ) (start end : ℕ)
    → IsReceiver s
    → seq < 2 ^ 64 - 1
    → (push_data s seq bytes).1 ≡ some (start, end)
    → (has (push_data s seq bytes).0 start ≡ false)
      × (end + 1 ≡ seq)
      × (s.mode ≡ StreamMode.udp)
      × ((k : ℕ) → k < seq → has s k ≡ false → (start ≤ k) × (k ≤ end))
push_data_nack s seq bytes start end r lt e =
    let (at_cursor, below, last, udp) = nack_fields s seq bytes start end e in
    (
      ground (arith, has-push_data s seq bytes start r lt, cursor_missing s r),
      last,
      udp,
      λ k lower missing. missing_range s k start end at_cursor (omega arith) missing,
    )

-- A packet that arrives does not touch the sending half.
pub push_data-SameSender :
    (s : StreamState) (seq : ℕ) (bytes : List ℕ) → SameSender s (push_data s seq bytes).0
unfolding drained inserted
push_data-SameSender s seq bytes =
    push_cases (λ t. SameSender s t.0) s seq bytes
      (λ old. record { same_mode = refl; same_cursor = refl; same_queue = refl })
      λ fresh.
        let h =
          drain-SameSender (length (BTreeMap.insert seq bytes s.read_buffer))
            (inserted s seq bytes) in
        record { same_mode = h.same_mode; same_cursor = h.same_cursor; same_queue = h.same_queue }
