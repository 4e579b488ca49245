-- ===== src/Protocol/Frames.antt =====
-- Frames, messages, addresses and UDP traffic, written and read back.
use rathole_ng.Prelude.{
  ℕ, zero, suc, replicate, ◌%◌, ◌<◌, ◌^◌, ◌≡◌, refl, Option, none, some, List, [], ◌∷◌, ◌++◌,
  length, drop, to_be_bytes, from_be_bytes-to_be_bytes, length-to_be_bytes, length-append,
  take-append, drop-append, append_assoc, arith,
}
use rathole_ng.Net.{SocketAddr}
use rathole_ng.Protocol.{
  forward_of, addr_of, PacketMessage, read_exact, read_framed_packet, write_framed_packet, Codec,
  IsCoded, read_packet_message, write_packet_message, UdpHeader, UdpTraffic, udp_header, write_udp,
  read_udp,
}

pub read_exact-append :
    (n : ℕ) (xs ys : List ℕ) → length xs ≡ n → read_exact n (xs ++ ys) ≡ some (xs, ys)
unfolding read_exact
read_exact-append n xs ys e =
    ground (arith, length-append xs ys, take-append n xs ys e, drop-append n xs ys e)

-- A frame that is written is read back, and what follows it stays on the connection, for bytes
-- whose length fits a `u32`.
pub read-write_framed_packet :
    (bytes rest : List ℕ)
    → length bytes < 2 ^ 32
    → read_framed_packet (write_framed_packet bytes ++ rest) ≡ some (bytes, rest)
unfolding read_framed_packet write_framed_packet
read-write_framed_packet bytes rest lt =
    let len = to_be_bytes 4 (length bytes) in
    let small : length bytes % 2 ^ 32 ≡ length bytes = omega arith in
    let head : read_exact 4 ((len ++ bytes) ++ rest) ≡ some (len, bytes ++ rest) =
      rw (append_assoc len bytes rest)
        (read_exact-append 4 len (bytes ++ rest) (length-to_be_bytes 4 (length bytes))) in
    rw (small, read_framed_packet, head, from_be_bytes-to_be_bytes 4 (length bytes) lt)
      (read_exact-append (length bytes) bytes rest refl)

module _ (bincode : Codec PacketMessage) where
  -- The message comes back from its bytes, and they fit a frame.
  abbrev pub IsFramed : PacketMessage → Type 0
  IsFramed m = IsCoded bincode m × (length (bincode.serialize m) < 2 ^ 32)

  read-write_packet_message :
      (m : PacketMessage) (rest : List ℕ)
      → IsFramed m
      → read_packet_message bincode (write_packet_message bincode m ++ rest) ≡ some (m, rest)
  unfolding read_packet_message write_packet_message
  read-write_packet_message m rest f =
      rw
        (
          read_packet_message,
          write_packet_message,
          read-write_framed_packet (bincode.serialize m) rest f.1,
          f.0,
        )
        refl

  -- All messages, one behind the other.
  unfoldable pub write_all : List PacketMessage → List ℕ
  write_all [] = []
  write_all (m ∷ ms) = write_packet_message bincode m ++ write_all ms

  -- As many messages as the number says.
  unfoldable pub read_all : ℕ → List ℕ → Option (List PacketMessage × List ℕ)
  read_all zero conn = some ([], conn)
  read_all (suc n) conn = elim (read_packet_message bincode conn) [
    | none ↦ none
    | some (m, rest) ↦ elim (read_all n rest) [
      | none ↦ none
      | some (ms, rest') ↦ some (m ∷ ms, rest')
    ]
  ]

  abbrev pub AreFramed : List PacketMessage → Type 0
  AreFramed [] = Unit
  AreFramed (m ∷ ms) = IsFramed m × AreFramed ms

  -- Any messages that are written on a connection one behind the other are read back in their
  -- order, and what follows them stays, for messages that the codec
  -- decodes from their own bytes and whose bytes fit a `u32`.
  pub read_all-write_all :
      (ms : List PacketMessage) (rest : List ℕ)
      → AreFramed ms
      → read_all (length ms) (write_all ms ++ rest) ≡ some (ms, rest)
  unfolding read_all write_all
  read_all-write_all [] rest f = refl
  read_all-write_all (m ∷ ms) rest f =
      rw
        (
          append_assoc (write_packet_message bincode m) (write_all ms) rest,
          read_all,
          read-write_packet_message m (write_all ms ++ rest) f.0,
          read_all-write_all ms rest f.1,
        )
        refl

-- The number of octets of an address.
abbrev pub IsAddr : SocketAddr → Type 0
IsAddr (SocketAddr.v4 o p) = length o ≡ 4
IsAddr (SocketAddr.v6 o p flow scope) = length o ≡ 16

abbrev pub without_scope : SocketAddr → SocketAddr
without_scope (SocketAddr.v4 o p) = SocketAddr.v4 o p
without_scope (SocketAddr.v6 o p flow scope) = SocketAddr.v6 o p 0 0

-- A source address comes through a data channel as it was, but for the flow and the scope of an
-- IPv6 address, which are lost; what is sent has 16 octets.
pub addr_of-forward_of :
    (a : SocketAddr)
    → IsAddr a
    → (addr_of (forward_of a) ≡ without_scope a) × (length (forward_of a).ip ≡ 16)
unfolding addr_of forward_of
addr_of-forward_of (SocketAddr.v4 o p) e = (
  rw (take-append 4 o (drop (length o) (replicate 16 0)) e) refl,
  rw e (omega (arith, length-append o (drop 4 (replicate 16 0)), e)),
)
addr_of-forward_of (SocketAddr.v6 o p flow scope) e = (refl, e)

module _ (bincode : Codec UdpHeader) where
  -- The length of the header is read first, by the caller.
  unfoldable pub read_traffic : List ℕ → Option (UdpTraffic × List ℕ)
  read_traffic [] = none
  read_traffic (n ∷ conn) = read_udp bincode conn n

  -- A UDP datagram that is written is read back with its source, and what follows it stays, for a
  -- header that the codec decodes from its own bytes and that fits a `u8`, and a datagram that fits
  -- a `u16`.
  pub read-write_udp :
      (t : UdpTraffic) (rest : List ℕ)
      → IsCoded bincode (udp_header bincode t)
      → length (bincode.serialize (udp_header bincode t)) < 2 ^ 8
      → length t.payload < 2 ^ 16
      → read_traffic (write_udp bincode t ++ rest) ≡ some (t, rest)
  unfolding read_traffic write_udp read_udp
  read-write_udp t rest c head fits =
      let hdr = udp_header bincode t in
      let v = bincode.serialize hdr in
      let short : length v % 2 ^ 8 ≡ length v = omega arith in
      let small : length t.payload % 2 ^ 16 ≡ length t.payload = omega arith in
      let first : read_exact (length v) ((v ++ t.payload) ++ rest) ≡ some (v, t.payload ++ rest) =
        rw (append_assoc v t.payload rest)
          (read_exact-append (length v) v (t.payload ++ rest) refl) in
      rw
        (short, read_udp, first, c, small, read_exact-append (length t.payload) t.payload rest refl)
        refl
