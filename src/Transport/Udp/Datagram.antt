-- ===== src/Transport/Udp/Datagram.antt =====
-- src/transport/udp.rs: `send_packet_raw`, and the way of a datagram through `bind` and `connect`.
-- The cipher is a parameter, and so are the random bytes of each nonce.
use rathole_ng.Prelude.{
  ℕ, ◌+◌, ◌≤◌, ◌≡◌, ◌<◌, ◌⊎◌, ◌∙◌, ap, take_all, dec_lt, Bool, true, false, Option, none, some,
  List, [], ◌++◌, arith, ltb, if◌then◌else◌, length, take, drop, length-append, ℕ_discrete,
  take-append, drop-append, inl, inr, Option-cases,
}
use rathole_ng.Collections.HashMap
use rathole_ng.Transport.Packet.{PacketKind, TransportPacketHeader, IsHeader, encode, decode}
use rathole_ng.Transport.Packet.Wire.{decode-encode, length-encode}
use rathole_ng.Transport.Stream.{build_ack}
use rathole_ng.Transport.Udp.{UdpStreamInner}

-- `ChaCha20Poly1305` under one key: `encrypt` and `decrypt` take the nonce and the bytes.
pub record Cipher : Type 0 where
  pub encrypt : List ℕ → List ℕ → Option (List ℕ)
  pub decrypt : List ℕ → List ℕ → Option (List ℕ)

-- What the code relies on: decryption undoes encryption, and the tag adds 16 bytes.
pub record IsAead (c : Cipher) : Type 0 where
  pub decrypt-encrypt :
      (nonce bytes e : List ℕ) → c.encrypt nonce bytes ≡ some e → c.decrypt nonce e ≡ some bytes
  pub length-encrypt :
      (nonce bytes e : List ℕ) → c.encrypt nonce bytes ≡ some e → length e ≡ length bytes + 16

abbrev pub is_nack_or_sack : PacketKind → Bool
is_nack_or_sack PacketKind.nack = true
is_nack_or_sack PacketKind.sack = true
is_nack_or_sack _ = false

-- The overrides of the two acknowledgement fields.
abbrev pub override : Option ℕ → Option ℕ → ℕ × ℕ → ℕ × ℕ
override (some a) (some b) built = (a, b)
override _ _ built = built

-- The header that `send_packet_raw` puts in front of the bytes.
unfoldable pub header_of :
    UdpStreamInner → ℕ → PacketKind → ℕ → Option ℕ → Option ℕ → TransportPacketHeader
header_of inner id kind seq ack_override bits_override =
    let acks : ℕ × ℕ = elim (HashMap.get ℕ_discrete id inner.reliability.streams) [
      | none ↦ (0, 0)
      | some s ↦
          if is_nack_or_sack kind
          then override ack_override bits_override (build_ack s)
          else build_ack s
    ] in
    record { channel_id = id; packet_kind = kind; seq = seq; ack = acks.0; ack_bits = acks.1 }

module _ (c : Cipher) where
  -- The datagram; `none` if the cipher fails. The send itself cannot fail, and sets `last_sent`.
  unfoldable pub send_packet_raw :
      ℕ
      → List ℕ
      → UdpStreamInner
      → ℕ
      → PacketKind
      → ℕ
      → Option ℕ
      → Option ℕ
      → List ℕ
      → Option (UdpStreamInner × List ℕ)
  send_packet_raw now nonce inner id kind seq ack_override bits_override bytes =
      let header = header_of inner id kind seq ack_override bits_override in
      elim (c.encrypt nonce (encode header [] ++ bytes)) [
        | none ↦ none
        | some e ↦ some (record inner { last_sent = now }, nonce ++ e)
      ]

  unfoldable pub send_packet :
      ℕ → List ℕ → UdpStreamInner → ℕ → PacketKind → ℕ → List ℕ → Option (UdpStreamInner × List ℕ)
  unfolding send_packet_raw
  send_packet now nonce inner id kind seq bytes =
      send_packet_raw now nonce inner id kind seq none none bytes

  -- The receive loop's chain of checks on the bytes received: what reaches `on_packet`.
  unfoldable pub open_datagram : List ℕ → Option (TransportPacketHeader × List ℕ)
  open_datagram pkt =
      if ltb (length pkt) 28 then none else elim (c.decrypt (take 12 pkt) (drop 12 pkt)) [
        | none ↦ none
        | some decrypted ↦ decode decrypted
      ]

  -- A datagram that arrives: the socket receives into a buffer of 2048 bytes, and cuts what is longer.
  unfoldable pub recv_datagram : List ℕ → Option (TransportPacketHeader × List ℕ)
  unfolding open_datagram
  recv_datagram pkt = let buf = take 2048 pkt in open_datagram buf

module _ (c : Cipher) (now : ℕ) (nonce : List ℕ) (inner inner' : UdpStreamInner) (id : ℕ)
    (kind : PacketKind) (seq : ℕ) (a b : Option ℕ) (bytes pkt : List ℕ) where
  sent_as :
      send_packet_raw c now nonce inner id kind seq a b bytes ≡ some (inner', pkt)
      → (e : List ℕ) × (c.encrypt nonce (encode (header_of inner id kind seq a b) [] ++ bytes)
          ≡ some e)
        × (pkt ≡ nonce ++ e)
  unfolding send_packet_raw
  sent_as h =
      let plain = encode (header_of inner id kind seq a b) [] ++ bytes in
      elim (Option-cases (c.encrypt nonce plain)) [
        | inl x ↦ absurd (ground arith)
        | inr (e, x) ↦ (e, x, ground arith)
      ]

opened :
    (c : Cipher) (nonce e plain : List ℕ) (r : TransportPacketHeader × List ℕ)
    → length nonce ≡ 12
    → 28 ≤ length (nonce ++ e)
    → c.decrypt nonce e ≡ some plain
    → decode plain ≡ some r
    → open_datagram c (nonce ++ e) ≡ some r
unfolding open_datagram
opened c nonce e plain r n long d p =
    ground (arith, take-append 12 nonce e n, drop-append 12 nonce e n)

-- A datagram that fits the buffer is not cut.
recv_datagram_whole :
    (c : Cipher) (pkt : List ℕ) → (2048 < length pkt) ⊎ (recv_datagram c pkt ≡ open_datagram c pkt)
unfolding recv_datagram
recv_datagram_whole c pkt = elim (dec_lt 2048 (length pkt)) [
  | yes long ↦ inl long
  | no short ↦
      let whole : take 2048 pkt ≡ pkt = take_all 2048 pkt (omega arith) in
      inr (ap (λ p. open_datagram c p) whole)
]

-- A datagram that one end sends is opened by the other to the header and the bytes; so it is when it
-- comes through the receive buffer, unless it is longer than the buffer's 2048 bytes.
pub open_datagram-send_packet_raw :
    (c : Cipher) (now : ℕ) (nonce : List ℕ) (inner inner' : UdpStreamInner) (id : ℕ)
    (kind : PacketKind) (seq : ℕ) (a b : Option ℕ) (bytes pkt : List ℕ)
    → IsAead c
    → length nonce ≡ 12
    → IsHeader (header_of inner id kind seq a b)
    → send_packet_raw c now nonce inner id kind seq a b bytes ≡ some (inner', pkt)
    → (open_datagram c pkt ≡ some (header_of inner id kind seq a b, bytes))
      × (length pkt ≡ 57 + length bytes)
      × ((2048 < length pkt)
          ⊎ (recv_datagram c pkt ≡ some (header_of inner id kind seq a b, bytes)))
open_datagram-send_packet_raw c now nonce inner inner' id kind seq a b bytes pkt laws n v h =
    let header = header_of inner id kind seq a b in
    let (e, sealed, same) = sent_as c now nonce inner inner' id kind seq a b bytes pkt h in
    let size : length (nonce ++ e) ≡ 57 + length bytes = omega (
      arith,
      length-append nonce e,
      laws.length-encrypt nonce (encode header [] ++ bytes) e sealed,
      length-encode header bytes,
    ) in
    let found =
      opened c nonce e (encode header [] ++ bytes) (header, bytes) n (omega (arith, size))
        (laws.decrypt-encrypt nonce (encode header [] ++ bytes) e sealed)
        (decode-encode header bytes v) in
    rw same (
      found,
      size,
      elim (recv_datagram_whole c (nonce ++ e)) [
        | inl long ↦ inl long
        | inr fits ↦ inr (fits ∙ found)
      ],
    )
