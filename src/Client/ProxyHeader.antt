-- ===== src/Client/ProxyHeader.antt =====
-- src/client.rs: the PROXY header that a service receives, read by the protocol's own rules.
use rathole_ng.Prelude.{
  ℕ, ◌+◌, ◌≤◌, ◌<◌, ◌^◌, ◌≡◌, refl, ◌∙◌, Option, none, some, List, [], ◌∷◌, ◌++◌, append_assoc,
  arith, length, length-append, ite, if_pos, if_neg, to_be_bytes, from_be_bytes, length-to_be_bytes,
  from_be_bytes-to_be_bytes,
}
use rathole_ng.Net.{SocketAddr, port, is_ipv6}
use rathole_ng.Config.{Text, text_discrete, ServiceType, ProxyProtocol, ClientServiceConfig}
use rathole_ng.Protocol.{DataChannelCmd, read_exact, forward_of, addr_of}
use rathole_ng.Protocol.Frames.{read_exact-append, IsAddr, without_scope, addr_of-forward_of}
use rathole_ng.Client.DataChannel.{
  proxy_v1, proxy_v2, preamble, CmdRead, Forwarding, run_data_channel, run_data_channel_for_tcp,
}

-- Two addresses of `n` octets and two ports.
unfoldable pub read_addresses :
    ℕ → (List ℕ → ℕ → SocketAddr) → List ℕ → Option (SocketAddr × SocketAddr × List ℕ)
read_addresses n addr conn = elim (read_exact n conn) [
  | none ↦ none
  | some (src, r1) ↦ elim (read_exact n r1) [
    | none ↦ none
    | some (dst, r2) ↦ elim (read_exact 2 r2) [
      | none ↦ none
      | some (p, r3) ↦ elim (read_exact 2 r3) [
        | none ↦ none
        | some (q, r4) ↦ some (addr src (from_be_bytes p), addr dst (from_be_bytes q), r4)
      ]
    ]
  ]
]

-- By the protocol's rules: the twelve bytes "\r\n\r\n\0\r\nQUIT\n", then version 2 with the command
-- PROXY, a family over a stream, and the length.
abbrev pub fixed_part : ℕ → ℕ → List ℕ
fixed_part family len =
    13 ∷ 10 ∷ 13 ∷ 10 ∷ 0 ∷ 13 ∷ 10 ∷ 81 ∷ 85 ∷ 73 ∷ 84 ∷ 10 ∷ 33 ∷ family ∷ 0 ∷ len ∷ []

-- A reader of version 2, for the two families: the source, the destination and what follows.
unfoldable pub read_v2 : List ℕ → Option (SocketAddr × SocketAddr × List ℕ)
unfolding read_addresses
read_v2 conn = elim (read_exact 16 conn) [
  | none ↦ none
  | some (head, rest) ↦
      ite (text_discrete head (fixed_part 17 12)) (read_addresses 4 SocketAddr.v4 rest) (
        ite (text_discrete head (fixed_part 33 36))
          (read_addresses 16 (λ o p. SocketAddr.v6 o p 0 0) rest) none)
]

read_addresses-append :
    (n : ℕ) (addr : List ℕ → ℕ → SocketAddr) (src dst : List ℕ) (p q : ℕ) (rest : List ℕ)
    → length src ≡ n
    → length dst ≡ n
    → p < 256 ^ 2
    → q < 256 ^ 2
    → read_addresses n addr ((src ++ (dst ++ (to_be_bytes 2 p ++ to_be_bytes 2 q))) ++ rest)
      ≡ some (addr src p, addr dst q, rest)
unfolding read_addresses
read_addresses-append n addr src dst p q rest e e' lt lt' =
    let ps = to_be_bytes 2 p in
    let qs = to_be_bytes 2 q in
    rw
      (
        append_assoc src (dst ++ (ps ++ qs)) rest,
        append_assoc dst (ps ++ qs) rest,
        append_assoc ps qs rest,
        read_addresses,
        read_exact-append n src (dst ++ (ps ++ (qs ++ rest))) e,
        read_exact-append n dst (ps ++ (qs ++ rest)) e',
        read_exact-append 2 ps (qs ++ rest) (length-to_be_bytes 2 p),
        read_exact-append 2 qs rest (length-to_be_bytes 2 q),
        from_be_bytes-to_be_bytes 2 p lt,
        from_be_bytes-to_be_bytes 2 q lt',
      )
      refl

-- What the protocol can say of an address.
abbrev pub IsProxied : SocketAddr → Type 0
IsProxied a = IsAddr a × (port a < 256 ^ 2)

read_v2_ipv4 :
    (rest : List ℕ) → read_v2 (fixed_part 17 12 ++ rest) ≡ read_addresses 4 SocketAddr.v4 rest
unfolding read_v2
read_v2_ipv4 rest =
    rw (read_v2, read_exact-append 16 (fixed_part 17 12) rest refl)
      (if_pos (text_discrete (fixed_part 17 12) (fixed_part 17 12)) refl _ _)

read_v2_ipv6 :
    (rest : List ℕ)
    → read_v2 (fixed_part 33 36 ++ rest) ≡ read_addresses 16 (λ o p. SocketAddr.v6 o p 0 0) rest
unfolding read_v2
read_v2_ipv6 rest =
    rw (read_v2, read_exact-append 16 (fixed_part 33 36) rest refl)
      (if_neg (text_discrete (fixed_part 33 36) (fixed_part 17 12)) (λ e. ground arith) _ _
        ∙ if_pos (text_discrete (fixed_part 33 36) (fixed_part 33 36)) refl _ _)

-- The header that is written is read as the two addresses, and what follows it stays.
read-proxy_v2 :
    (src dst : SocketAddr) (rest : List ℕ)
    → IsProxied src
    → IsProxied dst
    → is_ipv6 src ≡ is_ipv6 dst
    → read_v2 (proxy_v2 src dst ++ rest) ≡ some (without_scope src, without_scope dst, rest)
unfolding proxy_v2 to_be_bytes
read-proxy_v2 (SocketAddr.v4 o p) (SocketAddr.v4 o' q) rest h h' e =
    read_v2_ipv4 _ ∙ read_addresses-append 4 SocketAddr.v4 o o' p q rest h.0 h'.0 h.1 h'.1
read-proxy_v2 (SocketAddr.v6 o p _ _) (SocketAddr.v6 o' q _ _) rest h h' e =
    read_v2_ipv6 _
    ∙ read_addresses-append 16 (λ o p. SocketAddr.v6 o p 0 0) o o' p q rest h.0 h'.0 h.1 h'.1
read-proxy_v2 (SocketAddr.v4 o p) (SocketAddr.v6 o' q _ _) rest h h' e = absurd (ground arith)
read-proxy_v2 (SocketAddr.v6 o p _ _) (SocketAddr.v4 o' q) rest h h' e = absurd (ground arith)

length_fields :
    (a b c d : Text)
    → length (a ++ (32 ∷ (b ++ (32 ∷ (c ++ (32 ∷ (d ++ 13 ∷ 10 ∷ [])))))))
      ≡ length a + length b + length c + length d + 5
length_fields a b c d = omega (
  arith,
  length-append a (32 ∷ (b ++ (32 ∷ (c ++ (32 ∷ (d ++ 13 ∷ 10 ∷ [])))))),
  length-append b (32 ∷ (c ++ (32 ∷ (d ++ 13 ∷ 10 ∷ [])))),
  length-append c (32 ∷ (d ++ 13 ∷ 10 ∷ [])),
  length-append d (13 ∷ 10 ∷ []),
)

module _ (show_ip : SocketAddr → Text) (show : ℕ → Text) where
  -- The visitor's address goes from the server's command to the service: where the client's own end of
  -- the connection to the service is of the same family, a TCP service that wants version 2 first
  -- gets a header that the rules of the protocol read as the visitor's address and that of this
  -- end.
  pub data_channel_names_visitor :
      (service : ClientServiceConfig) (visitor local : SocketAddr) (rest : List ℕ)
      → service.service_type ≡ ServiceType.tcp
      → service.proxy_protocol ≡ some ProxyProtocol.v2
      → IsProxied visitor
      → IsProxied local
      → is_ipv6 visitor ≡ is_ipv6 local
      → (bytes : List ℕ) × ((run_data_channel show_ip show service
            (CmdRead.cmd (DataChannelCmd.start_forward_tcp (forward_of visitor)))
            (some (some local))).1
          ≡ Forwarding.tcp bytes)
        × (read_v2 (bytes ++ rest) ≡ some (without_scope visitor, without_scope local, rest))
  unfolding run_data_channel run_data_channel_for_tcp preamble
  data_channel_names_visitor service visitor local rest tcp v2 h h' e = (
    proxy_v2 (addr_of (forward_of visitor)) local,
    rw (run_data_channel, tcp, run_data_channel_for_tcp, preamble, v2) refl,
    rw (addr_of-forward_of visitor h.0).0 (read_plain visitor h e),
  )
    where
      read_plain :
          (v : SocketAddr)
          → IsProxied v
          → is_ipv6 v ≡ is_ipv6 local
          → read_v2 (proxy_v2 (without_scope v) local ++ rest)
            ≡ some (without_scope v, without_scope local, rest)
      read_plain (SocketAddr.v4 o p) h e = read-proxy_v2 (SocketAddr.v4 o p) local rest h h' e
      read_plain (SocketAddr.v6 o p _ _) h e =
          read-proxy_v2 (SocketAddr.v6 o p 0 0) local rest h h' e

  -- Version 1 is at most 107 bytes, the bound that the protocol sets, where an address takes at
  -- most 39 and a port at most 5.
  pub length-proxy_v1-le :
      (src dst : SocketAddr)
      → length (show_ip src) ≤ 39
      → length (show_ip dst) ≤ 39
      → length (show (port src)) ≤ 5
      → length (show (port dst)) ≤ 5
      → length (proxy_v1 show_ip show src dst) ≤ 107
  unfolding proxy_v1
  length-proxy_v1-le src dst a b c d =
      omega (arith, length_fields (show_ip src) (show_ip dst) (show (port src)) (show (port dst)))
