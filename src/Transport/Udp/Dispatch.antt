-- ===== src/Transport/Udp/Dispatch.antt =====
-- src/transport/udp.rs: `ListenerPacketRuntime` and `ConnectedPacketRuntime`, which hand each
-- packet that was opened to the stream that it names.
use rathole_ng.Prelude.{
  ℕ, ◌≤◌, ◌≡◌, ◌≢◌, Bool, true, false, ◌||◌, not, Option, none, some, List, [], ◌∷◌, ◌++◌, arith,
  ltb, ◌==◌, if◌then◌else◌, length, length-append, ℕ_discrete, inl, inr, Option-cases,
}
use rathole_ng.Collections.HashMap
use rathole_ng.Net.{SocketAddr}
use rathole_ng.Transport.Packet.{PacketKind, TransportPacketHeader}
use rathole_ng.Transport.Udp.{IncomingPacket}

-- The packets that wait for each stream, the streams that were opened, oldest first.
pub record Listener : Type 0 where
  pub active_streams : List (ℕ × List IncomingPacket)
  pub incoming : List ℕ

-- `tx.try_send`, on a channel with room for 1024 packets; a full channel drops the packet.
unfoldable pub offer : IncomingPacket → List IncomingPacket → List IncomingPacket
offer pkt queue = if ltb (length queue) 1024 then queue ++ pkt ∷ [] else queue

abbrev is_stream_open : PacketKind → Bool
is_stream_open PacketKind.stream_open = true
is_stream_open _ = false

-- The header of the answer to a packet of an unknown stream.
abbrev pub close_header : ℕ → TransportPacketHeader
close_header id = record {
  channel_id = id;
  packet_kind = PacketKind.stream_close;
  seq = 0;
  ack = 0;
  ack_bits = 0;
}

-- The new state, and the header to send back to the source.
unfoldable pub on_packet : Listener → IncomingPacket → Listener × Option TransportPacketHeader
on_packet l pkt =
    let id = pkt.header.channel_id in
    elim (HashMap.get ℕ_discrete id l.active_streams) [
      | some queue ↦ (
        record l {
          active_streams = HashMap.insert ℕ_discrete id (offer pkt queue) l.active_streams;
        },
        none,
      )
      | none ↦
          if is_stream_open pkt.header.packet_kind
          then (
            record {
              active_streams = HashMap.insert ℕ_discrete id (offer pkt []) l.active_streams;
              incoming = l.incoming ++ id ∷ [];
            },
            none,
          )
          else (l, some (close_header id))
    ]

-- The end of a stream's task: `active_lock.remove(&stream_id)`
unfoldable pub stream_ended : ℕ → Listener → Listener
stream_ended id l = record l { active_streams = HashMap.remove ℕ_discrete id l.active_streams }

-- The client's end takes packets of its own stream from its own server only.
unfoldable pub connected_on_packet :
    (SocketAddr → SocketAddr → Bool)
    → ℕ
    → SocketAddr
    → List IncomingPacket
    → IncomingPacket
    → List IncomingPacket
connected_on_packet same_addr id dest queue pkt =
    if not (same_addr pkt.src dest) || not (pkt.header.channel_id == id)
    then queue
    else offer pkt queue

-- The queue of a stream, empty for none.
abbrev pub queue_of : ℕ → Listener → List IncomingPacket
queue_of id l = elim (HashMap.get ℕ_discrete id l.active_streams) [ none ↦ [] | some q ↦ q ]

length-offer-le :
    (pkt : IncomingPacket) (q : List IncomingPacket) → length q ≤ 1024 → length (offer pkt q) ≤ 1024
unfolding offer
length-offer-le pkt q h = ground (arith, length-append q (pkt ∷ []))

-- A packet reaches no stream but the one that it names, and no queue passes 1024 packets.
pub on_packet_isolates :
    (l : Listener) (pkt : IncomingPacket) (id : ℕ)
    → length (queue_of id l) ≤ 1024
    → let l' = (on_packet l pkt).0 in
      (length (queue_of id l') ≤ 1024)
      × (id ≢ pkt.header.channel_id → queue_of id l' ≡ queue_of id l)
unfolding on_packet
on_packet_isolates l pkt id fits =
    let j = pkt.header.channel_id in
    elim (Option-cases (HashMap.get ℕ_discrete j l.active_streams)) [
      | inl e ↦ (
        ground (
          arith,
          length-offer-le pkt [],
          HashMap.get-insert ℕ_discrete j id (offer pkt []) l.active_streams,
        ),
        λ ne. ground (arith, HashMap.get-insert ℕ_discrete j id (offer pkt []) l.active_streams),
      )
      | inr (q, e) ↦ (
        ground (
          arith,
          length-offer-le pkt q,
          HashMap.get-insert ℕ_discrete j id (offer pkt q) l.active_streams,
        ),
        λ ne. ground (arith, HashMap.get-insert ℕ_discrete j id (offer pkt q) l.active_streams),
      )
    ]

-- Only an open makes a stream: any other packet of an unknown stream changes nothing, and is
-- answered by a close for that stream; and only unknown streams are so answered.
pub on_packet_unknown :
    (l : Listener) (pkt : IncomingPacket) (h : TransportPacketHeader)
    → (on_packet l pkt).1 ≡ some h
    → (h ≡ close_header pkt.header.channel_id)
      × (HashMap.get ℕ_discrete pkt.header.channel_id l.active_streams ≡ none)
      × (pkt.header.packet_kind ≢ PacketKind.stream_open)
      × ((on_packet l pkt).0 ≡ l)
unfolding on_packet
on_packet_unknown l pkt h e = (ground arith, ground arith, (λ x. ground arith), ground arith)
