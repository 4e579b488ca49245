-- ===== src/Server/Pool.antt =====
-- Which visitors the TCP pool serves, and what it keeps in store.
use rathole_ng.Prelude.{
  ℕ, none, some, ◌+◌, ◌≤◌, ◌<◌, ◌≡◌, refl, true, List, [], ◌∷◌, arith, if◌then◌else◌, length, inl,
  inr, Bool-cases, dec_lt,
}
use rathole_ng.Net.{SocketAddr}
use rathole_ng.Config.{ServiceType}
use rathole_ng.Protocol.{PacketMessage}
use rathole_ng.Server.Channel.{
  first_requests, ListenEvent, tcp_listen_and_send, DataChannel, start_forward_tcp,
  run_tcp_connection_pool,
}

-- A new channel can be asked for in place of each.
abbrev pub AreAsked : List DataChannel → Type 0
AreAsked [] = Unit
AreAsked (ch ∷ chs) = (ch.asked ≡ true) × AreAsked chs

-- The channels that work, in order.
unfoldable pub working : List DataChannel → List ℕ
working [] = []
working (ch ∷ chs) = let rest = working chs in if ch.works then ch.id ∷ rest else rest

-- The visitors and the working channels, first with first.
unfoldable pub paired : List SocketAddr → List ℕ → List (SocketAddr × ℕ × PacketMessage)
paired [] ids = []
paired (v ∷ vs) [] = []
paired (v ∷ vs) (i ∷ ids) = (v, i, start_forward_tcp v) ∷ paired vs ids

-- As long as a new channel can be asked for in place of each that does not work, each visitor is
-- forwarded over the next channel that works, in the order in which the visitors and the channels
-- come, with the command that names the visitor; no channel is used twice.
pub run_tcp_connection_pool_pairs :
    (visitors : List SocketAddr) (chs : List DataChannel)
    → AreAsked chs
    → (run_tcp_connection_pool visitors chs).forwarded ≡ paired visitors (working chs)
unfolding run_tcp_connection_pool paired working
run_tcp_connection_pool_pairs [] chs h = refl
run_tcp_connection_pool_pairs (v ∷ vs) [] h = refl
run_tcp_connection_pool_pairs (v ∷ vs) (ch ∷ chs) h = ground (
  arith,
  run_tcp_connection_pool_pairs vs chs h.1,
  run_tcp_connection_pool_pairs (v ∷ vs) chs h.1,
)

-- Where each channel went, and that the pool waits only for want of a channel.
pool_accounts :
    (visitors : List SocketAddr) (chs : List DataChannel)
    → AreAsked chs
    → let r = run_tcp_connection_pool visitors chs in
      (length r.forwarded + r.requests + length r.spare ≡ length chs)
      × (length r.forwarded ≤ length visitors)
      × (length r.forwarded < length visitors → length r.spare ≡ 0)
unfolding run_tcp_connection_pool
pool_accounts [] chs h = (omega arith, omega arith, λ lt. absurd (omega arith))
pool_accounts (v ∷ vs) [] h = (omega arith, omega arith, λ lt. refl)
pool_accounts (v ∷ vs) (ch ∷ chs) h =
    let next = pool_accounts vs chs h.1 in
    let again = pool_accounts (v ∷ vs) chs h.1 in
    elim (Bool-cases ch.works) [
      | inl e ↦ rw e (omega (arith, next.0), omega (arith, next.1), λ lt. next.2 (omega arith))
      | inr e ↦ rw (e, h.0) (omega (arith, again.0), again.1, λ lt. again.2 (omega arith))
    ]

listen_asks :
    (es : List ListenEvent) → length (tcp_listen_and_send es).0 ≡ length (tcp_listen_and_send es).1
unfolding tcp_listen_and_send
listen_asks [] = refl
listen_asks (ListenEvent.accept_failed none ∷ es) = refl
listen_asks (ListenEvent.accept_failed (some d) ∷ es) = listen_asks es
listen_asks (ListenEvent.accepted v asked ∷ es) = ground (arith, listen_asks es)
listen_asks (ListenEvent.shutdown ∷ es) = refl

-- If a new channel can be asked for in place of each that does not work, and each request for a data
-- channel is answered with one, of the first requests of the handle, those of the listener and those
-- for a broken channel, then every visitor that the listener let in is forwarded, and eight channels
-- are left in store.
pub pool_serves_all :
    (es : List ListenEvent) (chs : List DataChannel)
    → AreAsked chs
    → length chs
      ≡ length (first_requests ServiceType.tcp)
        + length (tcp_listen_and_send es).0
        + (run_tcp_connection_pool (tcp_listen_and_send es).1 chs).requests
    → let r = run_tcp_connection_pool (tcp_listen_and_send es).1 chs in
      (length r.forwarded ≡ length (tcp_listen_and_send es).1) × (length r.spare ≡ 8)
unfolding first_requests
pool_serves_all es chs h e =
    let visitors = (tcp_listen_and_send es).1 in
    let (total, le, wait) = pool_accounts visitors chs h in
    let same = listen_asks es in
    let r = run_tcp_connection_pool visitors chs in
    elim (dec_lt (length r.forwarded) (length visitors)) [
      | yes lt ↦ let none_left = wait lt in absurd (omega arith)
      | no ge ↦ (omega arith, omega arith)
    ]
