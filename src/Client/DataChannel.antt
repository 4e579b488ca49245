-- ===== src/Client/DataChannel.antt =====
-- src/client.rs: what a data channel forwards, and the PROXY header in front of TCP traffic.
-- The text of an address without its port and that of a number are arguments, as `Display` gives
-- them. The copying of bytes in both directions is not modelled.
use rathole_ng.Prelude.{
  ℕ, Bool, true, false, Option, none, some, List, [], ◌∷◌, ◌++◌, if◌then◌else◌, to_be_bytes,
}
use rathole_ng.Net.{SocketAddr, is_ipv6, port}
use rathole_ng.Config.{Text, ServiceType, ProxyProtocol, ClientServiceConfig}
use rathole_ng.Protocol.{
  Digest, Hello, PacketMessage, ForwardAddr, DataChannelCmd, addr_of, current_proto_version,
}

-- "\x0D\x0A\x0D\x0A\x00\x0D\x0A\x51\x55\x49\x54\x0A"
abbrev pub signature : List ℕ
signature = 13 ∷ 10 ∷ 13 ∷ 10 ∷ 0 ∷ 13 ∷ 10 ∷ 81 ∷ 85 ∷ 73 ∷ 84 ∷ 10 ∷ []

-- The bytes of version 2, none for addresses of two families.
unfoldable pub proxy_v2 : SocketAddr → SocketAddr → List ℕ
proxy_v2 (SocketAddr.v4 src p) (SocketAddr.v4 dst q) =
    signature
    ++ 33 ∷ 17 ∷ (to_be_bytes 2 12 ++ (src ++ (dst ++ (to_be_bytes 2 p ++ to_be_bytes 2 q))))
proxy_v2 (SocketAddr.v6 src p _ _) (SocketAddr.v6 dst q _ _) =
    signature
    ++ 33 ∷ 33 ∷ (to_be_bytes 2 36 ++ (src ++ (dst ++ (to_be_bytes 2 p ++ to_be_bytes 2 q))))
proxy_v2 _ _ = []

-- The hello of `do_data_channel_handshake`.
unfoldable pub data_hello : Digest → PacketMessage
data_hello session_key =
    PacketMessage.hello (Hello.data_channel_hello current_proto_version session_key)

-- "PROXY "
abbrev pub proxy_word : Text
proxy_word = 80 ∷ 82 ∷ 79 ∷ 88 ∷ 89 ∷ 32 ∷ []

-- "TCP4" and "TCP6"
abbrev pub family_word : SocketAddr → Text
family_word src = 84 ∷ 67 ∷ 80 ∷ (if is_ipv6 src then 54 else 52) ∷ []

module _ (show_ip : SocketAddr → Text) (show : ℕ → Text) where
  -- `format!("PROXY {} {} {} {} {}\r\n", ..)`
  unfoldable pub proxy_v1 : SocketAddr → SocketAddr → Text
  proxy_v1 src dst =
      let ports = show (port src) ++ (32 ∷ (show (port dst) ++ 13 ∷ 10 ∷ [])) in
      proxy_word
      ++ (family_word src ++ (32 ∷ (show_ip src ++ (32 ∷ (show_ip dst ++ (32 ∷ ports))))))

  -- `local.local_addr().unwrap_or(src_addr)`
  abbrev pub local_or : SocketAddr → Option SocketAddr → SocketAddr
  local_or src none = src
  local_or src (some a) = a

  -- What `run_data_channel_for_tcp` writes to the service before it copies.
  unfoldable pub preamble : Option ProxyProtocol → ForwardAddr → Option SocketAddr → List ℕ
  preamble none real_ip local = []
  preamble (some ProxyProtocol.v1) real_ip local =
      let src = addr_of real_ip in proxy_v1 src (local_or src local)
  preamble (some ProxyProtocol.v2) real_ip local =
      let src = addr_of real_ip in proxy_v2 src (local_or src local)

  -- `read_data_cmd`, with the end of the connection apart from other errors.
  pub data CmdRead : Type 0 where
    cmd : DataChannelCmd → CmdRead
    unexpected_eof failed : CmdRead

  -- What comes of a data channel: it ends, with or without an error, or it forwards; a TCP service
  -- first gets the bytes.
  pub data Forwarding : Type 0 where
    ended wrong_type broken : Forwarding
    tcp : List ℕ → Forwarding
    udp : Forwarding

  abbrev pub is_udp_service : ServiceType → Bool
  is_udp_service ServiceType.tcp = false
  is_udp_service ServiceType.udp = true

  -- `run_data_channel_for_tcp`, up to the copying: the connection to the service, `none` for an
  -- error, has an address of its own or not.
  unfoldable pub run_data_channel_for_tcp :
      ForwardAddr → Option ProxyProtocol → Option (Option SocketAddr) → Forwarding
  unfolding preamble
  run_data_channel_for_tcp real_ip proxy_protocol none = Forwarding.broken
  run_data_channel_for_tcp real_ip proxy_protocol (some local) =
      Forwarding.tcp (preamble proxy_protocol real_ip local)

  -- `run_data_channel` after the handshake; whether it sets the stream to the mode of nacks comes
  -- first.
  unfoldable pub run_data_channel :
      ClientServiceConfig → CmdRead → Option (Option SocketAddr) → Bool × Forwarding
  unfolding run_data_channel_for_tcp
  run_data_channel service (CmdRead.cmd (DataChannelCmd.start_forward_tcp real_ip)) local =
      let is_udp = is_udp_service service.service_type in
      (
        is_udp,
        if is_udp
            then Forwarding.wrong_type
            else run_data_channel_for_tcp real_ip service.proxy_protocol local,
      )
  run_data_channel service (CmdRead.cmd (DataChannelCmd.start_forward_udp _)) local =
      let is_udp = is_udp_service service.service_type in
      (is_udp, if is_udp then Forwarding.udp else Forwarding.wrong_type)
  run_data_channel service CmdRead.unexpected_eof local =
      (is_udp_service service.service_type, Forwarding.ended)
  run_data_channel service CmdRead.failed local =
      (is_udp_service service.service_type, Forwarding.broken)
