-- ===== src/Transport/Udp/Task/Released.antt =====
-- Nothing waits on a connection whose task has ended.
use rathole_ng.Prelude.{
  ℕ, ◌≡◌, ◌++◌, sym, append-nil, ◌≢◌, ◌⊎◌, refl, true, false, Option, none, some, List, [], ◌∷◌,
  arith, inl, inr, Bool-cases, Option-cases, length, ◌==◌,
}
use rathole_ng.Net.{SocketAddr}
use rathole_ng.Transport.Udp.{Outgoing, TickResult, handle_tick}
use rathole_ng.Transport.Udp.Io.{Written, Poll, IoError, poll_read, poll_write, packet_of}
use rathole_ng.Transport.Udp.Io.Writing.{state_of}
use rathole_ng.Transport.Udp.Datagram.{Cipher, send_packet_raw, send_packet}
use rathole_ng.Transport.Udp.Dispatch.{Listener}
use rathole_ng.Transport.Udp.Task.{
  StreamTask, TaskEvent, new, with_inner, with_udp, end_task, send_all, on_incoming, on_written,
  on_tick, take_written, select, own, step_task, run_task,
}
use rathole_ng.Transport.Udp.Task.Awake.{
  IsReleased, sleepers, end_task-IsReleased, end_task_wakes, released_has_no_sleepers, write_fails,
  read-IsReleased, own-IsReleased,
}

-- A task that goes on, or one that has ended and let its stream go.
abbrev pub RunsOrReleased : StreamTask → Type 0
RunsOrReleased t = (t.running ≡ true) ⊎ IsReleased t.udp

module _ (c : Cipher) (nonce : ℕ → List ℕ) where
  send_all-RunsOrReleased :
      (now : ℕ) (os : List (ℕ × Outgoing)) (t : StreamTask)
      → t.running ≡ true
      → RunsOrReleased (send_all c nonce now os t)
  unfolding send_all
  send_all-RunsOrReleased now [] t runs = inl runs
  send_all-RunsOrReleased now ((id, o) ∷ os) t runs =
      elim (Option-cases (
        send_packet_raw c now (nonce (length t.datagrams)) t.udp.inner id o.kind o.seq (some o.ack)
          (some o.bits) o.payload)) [
            | inl e ↦ rw (e, send_all) (inr (end_task-IsReleased t))
            | inr ((inner, pkt), e) ↦ rw (e, send_all) (send_all-RunsOrReleased now os _ runs)
          ]

  on_written-RunsOrReleased :
      (now : ℕ) (item : Written) (t : StreamTask)
      → t.running ≡ true
      → RunsOrReleased (on_written c nonce now item t)
  unfolding on_written
  on_written-RunsOrReleased now item t runs =
      let p = packet_of item in
      elim (Option-cases
        (send_packet c now (nonce (length t.datagrams)) t.udp.inner t.udp.stream_id p.0 p.1 p.2)) [
          | inl e ↦ elim (Bool-cases (item.0 == 0)) [
            | inl e2 ↦ rw (e, e2, on_written) (inl runs)
            | inr e2 ↦ rw (e, e2, on_written) (inr (end_task-IsReleased t))
          ]
          | inr (r, e) ↦ rw (e, on_written) (inl runs)
        ]

  take_written-RunsOrReleased :
      (now : ℕ) (items : List Written) (t : StreamTask)
      → t.running ≡ true
      → RunsOrReleased (take_written c nonce now items t)
  unfolding take_written
  take_written-RunsOrReleased now [] t runs = inl runs
  take_written-RunsOrReleased now (item ∷ items) t runs = on_written-RunsOrReleased now item _ runs

  on_tick-RunsOrReleased :
      (now : ℕ) (t : StreamTask) → t.running ≡ true → RunsOrReleased (on_tick c nonce now t)
  unfolding on_tick
  on_tick-RunsOrReleased now t runs =
      let (inner, result) = handle_tick now t.udp.inner in
      elim result
        as (λ (r : TickResult). RunsOrReleased (elim r [
          | TickResult.ok to_send ↦ send_all c nonce now to_send (with_inner t inner)
          | TickResult.err _ ↦ end_task (with_inner t inner)
        ])) [
          | TickResult.ok to_send ↦ send_all-RunsOrReleased now to_send (with_inner t inner) runs
          | TickResult.err _ ↦ inr (end_task-IsReleased (with_inner t inner))
        ]

  select-RunsOrReleased :
      (now : ℕ) (e : TaskEvent) (t : StreamTask)
      → t.running ≡ true
      → RunsOrReleased (select c nonce now e t)
  unfolding select on_incoming
  select-RunsOrReleased now (TaskEvent.incoming none) t runs = inr (end_task-IsReleased t)
  select-RunsOrReleased now (TaskEvent.incoming (some pkt)) t runs =
      send_all-RunsOrReleased now _ _ runs
  select-RunsOrReleased now TaskEvent.write_item t runs =
      take_written-RunsOrReleased now t.udp.write_queue t runs
  select-RunsOrReleased now TaskEvent.tick t runs = on_tick-RunsOrReleased now t runs
  select-RunsOrReleased now TaskEvent.dropped t runs = inr (end_task-IsReleased t)
  select-RunsOrReleased now (TaskEvent.read waker remaining) t runs = inl runs
  select-RunsOrReleased now (TaskEvent.write waker buf) t runs = inl runs
  select-RunsOrReleased now TaskEvent.shutdown t runs = inl runs
  select-RunsOrReleased now TaskEvent.udp_mode t runs = inl runs

module _ (c : Cipher) (nonce : ℕ → List ℕ) where
  pub event_running :
      (now : ℕ) (e : TaskEvent) (t : StreamTask)
      → t.running ≡ true
      → let after = select c nonce now e t in
        step_task c nonce now e t ≡ with_udp after (own c nonce now e after.udp)
  unfolding step_task
  event_running now e t runs = ground arith

  pub event_ended :
      (now : ℕ) (e : TaskEvent) (t : StreamTask)
      → t.running ≡ false
      → step_task c nonce now e t ≡ with_udp t (own c nonce now e t.udp)
  unfolding step_task
  event_ended now e t ended = ground arith

  step_task-RunsOrReleased :
      (now : ℕ) (e : TaskEvent) (t : StreamTask)
      → RunsOrReleased t
      → RunsOrReleased (step_task c nonce now e t)
  step_task-RunsOrReleased now e t h = elim (Bool-cases t.running) [
    | inl runs ↦
        rw (event_running now e t runs) (elim (select-RunsOrReleased c nonce now e t runs) [
          | inl goes_on ↦ inl goes_on
          | inr released ↦ inr (own-IsReleased c nonce now e _ released)
        ])
    | inr ended ↦ elim h [
      | inl runs ↦ absurd (ground arith)
      | inr released ↦
          rw (event_ended now e t ended) (inr (own-IsReleased c nonce now e t.udp released))
    ]
  ]

  run_task-RunsOrReleased :
      (es : List (ℕ × TaskEvent)) (t : StreamTask)
      → RunsOrReleased t
      → RunsOrReleased (run_task c nonce es t)
  unfolding run_task
  run_task-RunsOrReleased [] t h = h
  run_task-RunsOrReleased ((now, e) ∷ es) t h =
      run_task-RunsOrReleased es (step_task c nonce now e t) (step_task-RunsOrReleased now e t h)

  pub closed_on_tick :
      (now : ℕ) (t : StreamTask) → t.udp.inner.closed ≡ true → on_tick c nonce now t ≡ end_task t
  unfolding on_tick handle_tick
  closed_on_tick now t closed = ground arith

  -- A tick ends the task of a closed stream.
  closed_tick-IsReleased :
      (now : ℕ) (t : StreamTask)
      → RunsOrReleased t
      → t.udp.inner.closed ≡ true
      → IsReleased (step_task c nonce now TaskEvent.tick t).udp
        × ((step_task c nonce now TaskEvent.tick t).woken ≡ t.woken ++ sleepers (state_of t.udp))
  unfolding select own
  closed_tick-IsReleased now t h closed = elim (Bool-cases t.running) [
    | inl runs ↦
        rw (event_running now TaskEvent.tick t runs, closed_on_tick now t closed)
          (end_task-IsReleased t, end_task_wakes t)
    | inr ended ↦ elim h [
      | inl runs ↦ absurd (ground arith)
      | inr released ↦
          rw (event_ended now TaskEvent.tick t ended)
            (released, rw (released_has_no_sleepers t.udp released) (sym (append-nil t.woken)))
    ]
  ]

  -- Whatever packets, ticks, reads and writes come, in any order: once the stream is closed, by its
  -- peer, its owner or the end of its task, the next tick wakes the reader and the writer that sleep
  -- on it, and nobody else. After that tick no waker is stored, no read waits, and each write fails.
  pub closed_stream_releases :
      (id : ℕ) (peer : SocketAddr) (start : ℕ) (listener : Option Listener)
      (es : List (ℕ × TaskEvent)) (now : ℕ)
      → let t = run_task c nonce es (new id peer start listener) in
        t.udp.inner.closed ≡ true
        → let ticked = step_task c nonce now TaskEvent.tick t in
          let u = ticked.udp in
          (ticked.woken ≡ t.woken ++ sleepers (state_of t.udp))
          × IsReleased u
          × ((waker remaining : ℕ) → (poll_read u waker remaining).1 ≢ Poll.pending)
          × ((at waker : ℕ) (buf : List ℕ)
              → poll_write at u waker buf ≡ (u, Poll.failed IoError.write_zero))
  unfolding new
  closed_stream_releases id peer start listener es now closed =
      let t = run_task c nonce es (new id peer start listener) in
      let (released, wakes) =
        closed_tick-IsReleased now t (run_task-RunsOrReleased es _ (inl refl)) closed in
      let u = (step_task c nonce now TaskEvent.tick t).udp in
      (
        wakes,
        released,
        λ waker remaining. (read-IsReleased u waker remaining released).1,
        λ at waker buf. write_fails at u waker buf released.is_closed,
      )
