-- ===== src/Transport/Udp/Connection.antt =====
-- The invariant of a whole connection.
use rathole_ng.Prelude.{
  ℕ, ◌-◌, ◌<◌, ◌^◌, ◌≡◌, subst, some, arith, ℕ_discrete, inl, inr, Option-cases, Bool-cases,
}
use rathole_ng.Collections.HashMap
use rathole_ng.Transport.Stream.{StreamState, StreamMode}
use rathole_ng.Transport.Udp.{UdpStreamInner, IncomingPacket, react, stream_or_new, handle_incoming}
use rathole_ng.Transport.Udp.Invariant.{IsStream, new-IsStream, react-IsStream}

-- Every stream of the connection is valid.
pub record IsConnection (inner : UdpStreamInner) : Type 0 where
  pub at :
      (id : ℕ) (s : StreamState)
      → HashMap.get ℕ_discrete id inner.reliability.streams ≡ some s
      → IsStream s

stream_or_new-IsStream :
    (inner : UdpStreamInner) (id : ℕ)
    → IsConnection inner
    → IsStream (stream_or_new id inner.reliability)
unfolding stream_or_new
stream_or_new-IsStream inner id h =
    elim (Option-cases (HashMap.get ℕ_discrete id inner.reliability.streams)) [
      | inl e ↦ rw (e, stream_or_new) (new-IsStream StreamMode.tcp)
      | inr (s, e) ↦ rw (e, stream_or_new) (h.at id s e)
    ]

-- A map of valid streams with one more valid stream.
stored-IsStream :
    (inner : UdpStreamInner) (id k : ℕ) (s t : StreamState)
    → IsConnection inner
    → IsStream s
    → HashMap.get ℕ_discrete k (HashMap.insert ℕ_discrete id s inner.reliability.streams) ≡ some t
    → IsStream t
stored-IsStream inner id k s t h v found =
    let law = HashMap.get-insert ℕ_discrete id k s inner.reliability.streams in
    elim (ℕ_discrete id k) [
      | yes e ↦ let same : s ≡ t = ground arith in subst IsStream same v
      | no ne ↦ h.at k t (ground arith)
    ]

-- Whatever packet comes, for a known stream or a new one, all streams stay valid.
pub handle_incoming-IsConnection :
    (now : ℕ) (inner : UdpStreamInner) (pkt : IncomingPacket)
    → IsConnection inner
    → pkt.header.seq < 2 ^ 64 - 1
    → IsConnection (handle_incoming now inner pkt).0
unfolding handle_incoming
handle_incoming-IsConnection now inner pkt h lt =
    let id = pkt.header.channel_id in
    let s = stream_or_new id inner.reliability in
    let r = react now pkt.header.packet_kind pkt.header pkt.payload s in
    let v =
      react-IsStream now pkt.header.packet_kind pkt.header pkt.payload s
        (stream_or_new-IsStream inner id h) (λ _. lt) in
    elim (Bool-cases inner.closed) [
      | inl e ↦ simp e h
      | inr e ↦ simp e (record { at = λ k t found. stored-IsStream inner id k r.state t h v found })
    ]
