-- ===== src/Transport/Udp/Task/Final.antt =====
-- src/transport/udp.rs: what a connection still does once its owner has shut it down.
use rathole_ng.Prelude.{
  ℕ, ◌+◌, ◌≤◌, ◌≡◌, ◌∙◌, refl, true, none, some, List, [], ◌∷◌, ◌++◌, arith, Option-cases,
  Bool-cases, inl, inr, length, ◌==◌,
}
use rathole_ng.Transport.Packet.{PacketKind, encode}
use rathole_ng.Transport.Udp.{UdpStreamInner, IncomingPacket, handle_incoming}
use rathole_ng.Transport.Udp.Io.{Written, poll_shutdown, packet_of}
use rathole_ng.Transport.Udp.Datagram.{Cipher, header_of, send_packet, send_packet_raw}
use rathole_ng.Transport.Udp.Task.{
  StreamTask, TaskEvent, with_udp, end_task, send_all, on_incoming, on_written, take_written,
  select, step_task, run_task,
}
use rathole_ng.Transport.Udp.Task.Released.{closed_on_tick, event_running, event_ended}
use rathole_ng.Transport.Udp.Task.Held.{
  AreHeld, IsFinal, AreHeld-refl, AreHeld-trans, end_task-held, own-held,
}

-- The datagrams of one round: one for an item of the writer's channel, none for another event.
abbrev allowed : TaskEvent → ℕ
allowed TaskEvent.write_item = 1
allowed _ = 0

abbrev pub write_items : List (ℕ × TaskEvent) → ℕ
write_items [] = 0
write_items ((now, e) ∷ es) = allowed e + write_items es

-- What a round leaves of a closed stream.
abbrev Leaves : ℕ → StreamTask → StreamTask → Type 0
Leaves n t r = IsFinal t.udp r.udp × (length r.datagrams ≤ n + length t.datagrams)

module _ (c : Cipher) (nonce : ℕ → List ℕ) where
  unchanged : (n : ℕ) (t : StreamTask) → t.udp.inner.closed ≡ true → Leaves n t t
  unchanged n t closed = (record { is_closed = closed; streams = AreHeld-refl _ }, omega arith)

  ended-Leaves : (n : ℕ) (t : StreamTask) → Leaves n t (end_task t)
  ended-Leaves n t = let (h, e) = end_task-held t in (h, rw e (omega arith))

  sent_same :
      (now : ℕ) (n : List ℕ) (u v : UdpStreamInner) (id : ℕ) (kind : PacketKind) (seq : ℕ)
      (bytes pkt : List ℕ)
      → send_packet c now n u id kind seq bytes ≡ some (v, pkt)
      → (v.closed ≡ u.closed) × (v.reliability ≡ u.reliability)
  unfolding send_packet send_packet_raw
  sent_same now n u v id kind seq bytes pkt e =
      elim (Option-cases (c.encrypt n (encode (header_of u id kind seq none none) [] ++ bytes))) [
        | inl x ↦ absurd (ground arith)
        | inr (sealed, x) ↦ (ground arith, ground arith)
      ]

  sent-Leaves :
      (now : ℕ) (item : Written) (t : StreamTask)
      → t.udp.inner.closed ≡ true
      → Leaves 1 t (on_written c nonce now item t)
  unfolding on_written send_packet send_packet_raw
  sent-Leaves now item t closed =
      let p = packet_of item in
      elim (Option-cases
        (send_packet c now (nonce (length t.datagrams)) t.udp.inner t.udp.stream_id p.0 p.1 p.2)) [
          | inl e ↦ elim (Bool-cases (item.0 == 0)) [
            | inl e2 ↦ rw (e, e2, on_written) (unchanged 1 t closed)
            | inr e2 ↦ rw (e, e2, on_written) (ended-Leaves 1 t)
          ]
          | inr ((inner, pkt), e) ↦
              let (same, streams) =
                sent_same now (nonce (length t.datagrams)) t.udp.inner inner t.udp.stream_id p.0 p.1
                  p.2 pkt e in
              rw (e, on_written)
                (
                  record {
                    is_closed = same ∙ closed;
                    streams = rw streams (AreHeld-refl t.udp.inner.reliability);
                  },
                  omega arith,
                )
        ]

  written-Leaves :
      (now : ℕ) (items : List Written) (t : StreamTask)
      → t.udp.inner.closed ≡ true
      → Leaves 1 t (take_written c nonce now items t)
  unfolding take_written
  written-Leaves now [] t closed = unchanged 1 t closed
  written-Leaves now (item ∷ items) t closed =
      let u = t.udp in
      let (h, few) = sent-Leaves now item (with_udp t (record u { write_queue = items })) closed in
      (record { is_closed = h.is_closed; streams = h.streams }, few)

  closed_incoming :
      (now : ℕ) (pkt : IncomingPacket) (t : StreamTask)
      → t.udp.inner.closed ≡ true
      → Leaves 0 t (on_incoming c nonce now pkt t)
  unfolding on_incoming handle_incoming send_all
  closed_incoming now pkt t closed =
      let e : handle_incoming now t.udp.inner pkt ≡ (t.udp.inner, [], []) = ground arith in
      rw (on_incoming, e) (unchanged 0 t closed)

  select-Leaves :
      (now : ℕ) (e : TaskEvent) (t : StreamTask)
      → t.udp.inner.closed ≡ true
      → Leaves (allowed e) t (select c nonce now e t)
  unfolding select take_written
  select-Leaves now (TaskEvent.incoming none) t closed = ended-Leaves 0 t
  select-Leaves now (TaskEvent.incoming (some pkt)) t closed = closed_incoming now pkt t closed
  select-Leaves now TaskEvent.write_item t closed = written-Leaves now t.udp.write_queue t closed
  select-Leaves now TaskEvent.tick t closed =
      rw (select, closed_on_tick c nonce now t closed) (ended-Leaves 0 t)
  select-Leaves now TaskEvent.dropped t closed = ended-Leaves 0 t
  select-Leaves now (TaskEvent.read waker remaining) t closed = unchanged 0 t closed
  select-Leaves now (TaskEvent.write waker buf) t closed = unchanged 0 t closed
  select-Leaves now TaskEvent.shutdown t closed = unchanged 0 t closed
  select-Leaves now TaskEvent.udp_mode t closed = unchanged 0 t closed

  step-Leaves :
      (now : ℕ) (e : TaskEvent) (t : StreamTask)
      → t.udp.inner.closed ≡ true
      → Leaves (allowed e) t (step_task c nonce now e t)
  step-Leaves now e t closed = elim (Bool-cases t.running) [
    | inl runs ↦ rw (event_running c nonce now e t runs) (
        let (h, few) = select-Leaves now e t closed in
        let g = own-held c nonce now e (select c nonce now e t).udp h.is_closed in
        (
          record { is_closed = g.is_closed; streams = AreHeld-trans _ _ _ h.streams g.streams },
          few,
        ))
    | inr ended ↦
        rw (event_ended c nonce now e t ended) (own-held c nonce now e t.udp closed, omega arith)
  ]

  run-Leaves :
      (es : List (ℕ × TaskEvent)) (t : StreamTask)
      → t.udp.inner.closed ≡ true
      → Leaves (write_items es) t (run_task c nonce es t)
  unfolding run_task
  run-Leaves [] t closed = unchanged 0 t closed
  run-Leaves ((now, e) ∷ es) t closed =
      let (h, few) = step-Leaves now e t closed in
      let (g, less) = run-Leaves es (step_task c nonce now e t) h.is_closed in
      (
        record { is_closed = g.is_closed; streams = AreHeld-trans _ _ _ h.streams g.streams },
        omega arith,
      )

  -- Once the owner of a connection has shut it down, then whatever follows, packets with
  -- acknowledgements, ticks, reads, writes and changes of the mode in any order: the stream stays
  -- closed, and each stream keeps what it had queued, its next numbers and the packets that wait for
  -- their turn; so no acknowledgement, no data and no write is taken in. The task sends no packet
  -- but at most one for each item that it takes from the writer's channel.
  pub poll_shutdown_is_final :
      (es : List (ℕ × TaskEvent)) (t : StreamTask)
      → let final = run_task c nonce es (with_udp t (poll_shutdown t.udp)) in
        (final.udp.inner.closed ≡ true)
        × AreHeld t.udp.inner.reliability final.udp.inner.reliability
        × (length final.datagrams ≤ write_items es + length t.datagrams)
  unfolding poll_shutdown
  poll_shutdown_is_final es t =
      let (h, few) = run-Leaves es (with_udp t (poll_shutdown t.udp)) refl in
      (h.is_closed, h.streams, few)
