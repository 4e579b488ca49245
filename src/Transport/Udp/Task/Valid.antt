-- ===== src/Transport/Udp/Task/Valid.antt =====
-- What holds of every stream of a connection, through all its events.
use rathole_ng.Prelude.{
  ℕ, suc, ◌+◌, ◌-◌, ◌≤◌, ◌<◌, ◌^◌, ◌≡◌, subst, true, false, Option, none, some, List, [], ◌∷◌,
  arith, inl, inr, Bool-cases, Option-cases, length, ◌==◌, ℕ_discrete, if◌then◌else◌,
}
use rathole_ng.Collections.HashMap
use rathole_ng.Net.{SocketAddr}
use rathole_ng.Transport.Stream.{StreamState, StreamMode, SentPacket, add64}
use rathole_ng.Transport.Stream
use rathole_ng.Transport.Udp.{UdpStreamInner, Outgoing, TickResult, handle_tick}
use rathole_ng.Transport.Udp.Invariant.{IsStream}
use rathole_ng.Transport.Udp.Io.{Written, packet_of}
use rathole_ng.Transport.Udp.Datagram.{Cipher, send_packet_raw, send_packet}
use rathole_ng.Transport.Udp.Dispatch.{Listener}
use rathole_ng.Transport.Udp.Task.{
  StreamTask, TaskEvent, new, with_inner, end_task, send_all, on_incoming, on_written, on_tick,
  take_written, select, own, step_task, run_task,
}
use rathole_ng.Transport.Udp.Task.Owning.{own-AreLive}
use rathole_ng.Transport.Udp.Task.Live.{
  IsLive, streams_of, AreLive, new-IsLive, handle_tick-AreLive, handle_incoming-AreLive,
  close_stream-AreLive,
}

-- Every stream is valid and has at most 1024 packets that wait for an acknowledgement.
pub record AreValid (m : List (ℕ × StreamState)) : Type 0 where
  pub at :
      (id : ℕ) (s : StreamState)
      → HashMap.get ℕ_discrete id m ≡ some s
      → IsStream s × (length s.write_queue ≤ 1024)

-- The number of a data packet is below the last one of a `u64`.
abbrev pub IsNumbered : TaskEvent → Type 0
IsNumbered (TaskEvent.incoming none) = Unit
IsNumbered (TaskEvent.incoming (some pkt)) = pkt.header.seq < 2 ^ 64 - 1
IsNumbered TaskEvent.write_item = Unit
IsNumbered TaskEvent.tick = Unit
IsNumbered TaskEvent.dropped = Unit
IsNumbered (TaskEvent.read waker remaining) = Unit
IsNumbered (TaskEvent.write waker buf) = Unit
IsNumbered TaskEvent.shutdown = Unit
IsNumbered TaskEvent.udp_mode = Unit

abbrev pub AreNumbered : List (ℕ × TaskEvent) → Type 0
AreNumbered [] = Unit
AreNumbered ((now, e) ∷ es) = IsNumbered e × AreNumbered es

abbrev OfTask : ℕ → StreamTask → Type 0
OfTask next t = AreLive next (streams_of t.udp)

module _ (c : Cipher) (nonce : ℕ → List ℕ) (next : ℕ) where
  -- A send leaves the streams as they are.
  sent_streams :
      (now : ℕ) (draw : List ℕ) (inner inner' : UdpStreamInner) (id : ℕ) (o : Outgoing)
      (a b : Option ℕ) (pkt : List ℕ)
      → send_packet_raw c now draw inner id o.kind o.seq a b o.payload ≡ some (inner', pkt)
      → inner'.reliability ≡ inner.reliability
  unfolding send_packet_raw
  sent_streams now draw inner inner' id o a b pkt e = ground arith

  end_task-AreLive : (t : StreamTask) → AreLive next (streams_of t.udp) → OfTask next (end_task t)
  unfolding end_task
  end_task-AreLive t h = close_stream-AreLive next t.udp.stream_id t.udp.inner h

  send_all-AreLive :
      (now : ℕ) (os : List (ℕ × Outgoing)) (t : StreamTask)
      → OfTask next t
      → OfTask next (send_all c nonce now os t)
  unfolding send_all
  send_all-AreLive now [] t h = h
  send_all-AreLive now ((id, o) ∷ os) t h =
      let draw = nonce (length t.datagrams) in
      elim (Option-cases (
        send_packet_raw c now draw t.udp.inner id o.kind o.seq (some o.ack) (some o.bits)
          o.payload)) [
            | inl e ↦ rw (e, send_all) (end_task-AreLive t h)
            | inr ((inner, pkt), e) ↦
                let same =
                  sent_streams now draw t.udp.inner inner id o (some o.ack) (some o.bits) pkt e in
                rw (e, send_all) (send_all-AreLive now os _ (rw same h))
          ]

  on_written-AreLive :
      (now : ℕ) (item : Written) (t : StreamTask)
      → OfTask next t
      → OfTask next (on_written c nonce now item t)
  unfolding on_written send_packet
  on_written-AreLive now item t h =
      let p = packet_of item in
      let draw = nonce (length t.datagrams) in
      let o : Outgoing = record { kind = p.0; seq = p.1; ack = 0; bits = 0; payload = p.2 } in
      elim (Option-cases
        (send_packet_raw c now draw t.udp.inner t.udp.stream_id p.0 p.1 none none p.2)) [
          | inl e ↦ elim (Bool-cases (item.0 == 0)) [
            | inl e2 ↦ rw (e, e2, on_written, send_packet) h
            | inr e2 ↦ rw (e, e2, on_written, send_packet) (end_task-AreLive t h)
          ]
          | inr ((inner, pkt), e) ↦
              let same =
                sent_streams now draw t.udp.inner inner t.udp.stream_id o none none pkt e in
              rw (e, on_written, send_packet) (rw same h)
        ]

  take_written-AreLive :
      (now : ℕ) (items : List Written) (t : StreamTask)
      → OfTask next t
      → OfTask next (take_written c nonce now items t)
  unfolding take_written
  take_written-AreLive now [] t h = h
  take_written-AreLive now (item ∷ items) t h = on_written-AreLive now item _ h

  on_tick-AreLive : (now : ℕ) (t : StreamTask) → OfTask next t → OfTask next (on_tick c nonce now t)
  unfolding on_tick
  on_tick-AreLive now t h =
      let (inner, result) = handle_tick now t.udp.inner in
      let after = handle_tick-AreLive next now t.udp.inner h in
      elim result
        as (λ (r : TickResult). OfTask next (elim r [
          | TickResult.ok to_send ↦ send_all c nonce now to_send (with_inner t inner)
          | TickResult.err _ ↦ end_task (with_inner t inner)
        ])) [
          | TickResult.ok to_send ↦ send_all-AreLive now to_send (with_inner t inner) after
          | TickResult.err _ ↦ end_task-AreLive (with_inner t inner) after
        ]

  select-AreLive :
      (now : ℕ) (e : TaskEvent) (t : StreamTask)
      → 1 ≤ next
      → IsNumbered e
      → OfTask next t
      → OfTask next (select c nonce now e t)
  unfolding select on_incoming
  select-AreLive now (TaskEvent.incoming none) t one n h = end_task-AreLive t h
  select-AreLive now (TaskEvent.incoming (some pkt)) t one n h =
      send_all-AreLive now _ _ (handle_incoming-AreLive next now t.udp.inner pkt one n h)
  select-AreLive now TaskEvent.write_item t one n h = take_written-AreLive now t.udp.write_queue t h
  select-AreLive now TaskEvent.tick t one n h = on_tick-AreLive now t h
  select-AreLive now TaskEvent.dropped t one n h = end_task-AreLive t h
  select-AreLive now (TaskEvent.read waker remaining) t one n h = h
  select-AreLive now (TaskEvent.write waker buf) t one n h = h
  select-AreLive now TaskEvent.shutdown t one n h = h
  select-AreLive now TaskEvent.udp_mode t one n h = h

module _ (c : Cipher) (nonce : ℕ → List ℕ) where
  step_task-AreLive :
      (next now : ℕ) (e : TaskEvent) (t : StreamTask)
      → 1 ≤ next
      → next + 2 < 2 ^ 64
      → IsNumbered e
      → AreLive next (streams_of t.udp)
      → AreLive (suc next) (streams_of (step_task c nonce now e t).udp)
  unfolding step_task
  step_task-AreLive next now e t one room n h =
      elim t.running
        as (λ b.
          AreLive (suc next)
            (streams_of (own c nonce now e (if b then select c nonce now e t else t).udp))) [
              | true ↦
                  own-AreLive c nonce next now e (select c nonce now e t).udp room
                    (select-AreLive c nonce next now e t one n h)
              | false ↦ own-AreLive c nonce next now e t.udp room h
            ]

  run_task-AreValid :
      (es : List (ℕ × TaskEvent)) (next : ℕ) (t : StreamTask)
      → 1 ≤ next
      → next + length es + 2 < 2 ^ 64
      → AreNumbered es
      → AreLive next (streams_of t.udp)
      → AreValid (streams_of (run_task c nonce es t).udp)
  unfolding run_task
  run_task-AreValid [] next t one room n h = record {
    at = λ id s found. let w = (h.at id s found).writer in (w.stream, w.few);
  }
  run_task-AreValid ((now, e) ∷ es) next t one room n h =
      run_task-AreValid es (suc next) (step_task c nonce now e t) (omega arith) (omega arith) n.1
        (step_task-AreLive next now e t one (omega arith) n.0 h)

  -- Whatever packets, ticks, reads, writes and changes of the mode come to a new stream, in any
  -- order, every stream of the connection stays valid and has at most 1024 packets that wait for an
  -- acknowledgement; the numbers of the packets that come, and the number of the events, are below
  -- the last ones of a `u64`.
  pub new_stream_stays_valid :
      (id : ℕ) (peer : SocketAddr) (start : ℕ) (listener : Option Listener)
      (es : List (ℕ × TaskEvent))
      → length es + 3 < 2 ^ 64
      → AreNumbered es
      → AreValid (run_task c nonce es (new id peer start listener)).udp.inner.reliability.streams
  unfolding new HashMap.get
  new_stream_stays_valid id peer start listener es room n =
      run_task-AreValid es 1 (new id peer start listener) (omega arith) (omega arith) n (record {
        at = λ k s found. elim (ℕ_discrete id k) [
          | yes e ↦
              let same : Stream.new StreamMode.tcp ≡ s = ground arith in
              subst (IsLive 1) same (new-IsLive 1 StreamMode.tcp (omega arith))
          | no ne ↦ absurd (ground arith)
        ];
      })
