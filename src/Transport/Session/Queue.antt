-- ===== src/Transport/Session/Queue.antt =====
-- The bytes in a writer's queue and in its packets.
use rathole_ng.Prelude.{
  ℕ, suc, ◌≤◌, ◌<◌, ◌≡◌, refl, Bool, some, List, [], ◌∷◌, ◌++◌, arith, length, inl, inr,
  Option-cases,
}
use rathole_ng.Collections.BTreeMap
use rathole_ng.Collections.BTreeMap.{Above, Below}
use rathole_ng.Transport.Packet.{PacketKind}
use rathole_ng.Transport.Stream.{SentPacket}
use rathole_ng.Transport.Reliability.{retransmit_queue}
use rathole_ng.Transport.Udp.{Outgoing, resend}
use rathole_ng.Transport.Session.{In, retransmitted}

module _ (chunk : ℕ → List ℕ) where
  -- Each packet of the queue has the bytes of its number.
  abbrev pub Holds : List (ℕ × SentPacket) → Type 0
  Holds [] = Unit
  Holds ((k, p) ∷ m) = (p.payload ≡ chunk k) × Holds m

  -- A data packet has the bytes of its number, which is one of those below the bound.
  abbrev pub IsCarried : ℕ → Outgoing → Type 0
  IsCarried bound o =
      o.kind ≡ PacketKind.stream → (o.payload ≡ chunk o.seq) × (1 ≤ o.seq) × (o.seq < bound)

  abbrev pub AreCarried : ℕ → List Outgoing → Type 0
  AreCarried bound [] = Unit
  AreCarried bound (o ∷ os) = IsCarried bound o × AreCarried bound os

  pub AreCarried-mono : (a b : ℕ) (os : List Outgoing) → a ≤ b → AreCarried a os → AreCarried b os
  AreCarried-mono a b [] le h = tt
  AreCarried-mono a b (o ∷ os) le h =
      (λ e. ((h.0 e).0, (h.0 e).1, omega (arith, (h.0 e).2)), AreCarried-mono a b os le h.1)

  pub AreCarried-append :
      (n : ℕ) (os ps : List Outgoing) → AreCarried n os → AreCarried n ps → AreCarried n (os ++ ps)
  AreCarried-append n [] ps h k = k
  AreCarried-append n (o ∷ os) ps h k = (h.0, AreCarried-append n os ps h.1 k)

  pub IsCarried-of_In :
      (n : ℕ) (o : Outgoing) (os : List Outgoing) → AreCarried n os → In o os → IsCarried n o
  IsCarried-of_In n o [] h i = absurd i
  IsCarried-of_In n o (p ∷ os) h (inl e) = rw e h.0
  IsCarried-of_In n o (p ∷ os) h (inr i) = IsCarried-of_In n o os h.1 i

  pub get-Holds :
      (k : ℕ) (p : SentPacket) (m : List (ℕ × SentPacket))
      → Holds m
      → BTreeMap.get k m ≡ some p
      → p.payload ≡ chunk k
  unfolding BTreeMap.get
  get-Holds k p [] h e = absurd (ground arith)
  get-Holds k p ((j, q) ∷ m) h e = ground (arith, get-Holds k p m h.1)

  pub insert-Holds :
      (k : ℕ) (p : SentPacket) (m : List (ℕ × SentPacket))
      → p.payload ≡ chunk k
      → Holds m
      → Holds (BTreeMap.insert k p m)
  unfolding BTreeMap.insert
  insert-Holds k p [] e h = (e, tt)
  insert-Holds k p ((j, q) ∷ m) e h = ground (arith, insert-Holds k p m e h.1)

  pub retain-Holds :
      (keep : ℕ → SentPacket → Bool) (m : List (ℕ × SentPacket))
      → Holds m
      → Holds (BTreeMap.retain keep m)
  unfolding BTreeMap.retain
  retain-Holds keep [] h = tt
  retain-Holds keep ((j, q) ∷ m) h = ground (arith, retain-Holds keep m h.1)

  -- Resending keeps the queue's bytes and sends only what is queued.
  pub resend_carried :
      (now bound : ℕ) (ks : List ℕ) (m : List (ℕ × SentPacket))
      → Above 1 m
      → Below bound m
      → Holds m
      → Holds (resend now ks m).0 × AreCarried bound (resend now ks m).1
  unfolding resend
  resend_carried now bound [] m a b h = (h, tt)
  resend_carried now bound (k ∷ ks) m a b h = elim (Option-cases (BTreeMap.get k m)) [
    | inl e ↦ rw (e, resend) (resend_carried now bound ks m a b h)
    | inr (p, e) ↦
        let same = get-Holds k p m h e in
        let one : 1 ≤ k = ground (arith, BTreeMap.get_below 1 k m a) in
        let lt = BTreeMap.get-lt bound k p m b e in
        let rest =
          resend_carried now bound ks (BTreeMap.insert k (record p { sent_at = now }) m)
            (BTreeMap.insert-Above 1 k _ m one a) (BTreeMap.insert-Below bound k _ m lt b)
            (insert-Holds k (record p { sent_at = now }) m same h) in
        rw (e, resend) (rest.0, ((λ _. (same, one, lt)), rest.1))
  ]

  -- So does the timer.
  pub retransmit_queue_carried :
      (now id low bound : ℕ) (m : List (ℕ × SentPacket))
      → 1 ≤ low
      → Above low m
      → Below bound m
      → Holds m
      → Above low (retransmit_queue now id m).0
        × Below bound (retransmit_queue now id m).0
        × Holds (retransmit_queue now id m).0
        × AreCarried bound (retransmitted (retransmit_queue now id m).1)
        × (length (retransmit_queue now id m).0 ≡ length m)
  unfolding retransmit_queue
  retransmit_queue_carried now id low bound [] one a b h = (tt, tt, tt, tt, refl)
  retransmit_queue_carried now id low bound ((k, p) ∷ m) one a b h =
      ground (arith, retransmit_queue_carried now id (suc k) bound m (omega arith) a.1 b.1 h.1)

pub length-resend :
    (now : ℕ) (ks : List ℕ) (m : List (ℕ × SentPacket))
    → Above 1 m
    → length (resend now ks m).0 ≡ length m
unfolding resend
length-resend now [] m a = refl
length-resend now (k ∷ ks) m a = elim (Option-cases (BTreeMap.get k m)) [
  | inl e ↦ rw (e, resend) (length-resend now ks m a)
  | inr (p, e) ↦
      let q = record p { sent_at = now } in
      let one : 1 ≤ k = ground (arith, BTreeMap.get_below 1 k m a) in
      let rest =
        length-resend now ks (BTreeMap.insert k q m) (BTreeMap.insert-Above 1 k q m one a) in
      let same = BTreeMap.length-insert_present 1 k p q m a e in
      rw (e, resend) (omega (arith, rest, same))
]
