-- ===== src/Server/Channel.antt =====
-- src/server.rs: what runs behind the handle of a control channel: its loop, the listener for
-- visitors, and the pools. Each task is a function of the events that it sees, in their order; that
-- the list ends means that the task still waits.
use rathole_ng.Prelude.{
  ℕ, ◌+◌, Bool, true, Option, none, some, List, [], ◌∷◌, ◌==◌, if◌then◌else◌, take, replicate,
}
use rathole_ng.Net.{SocketAddr}
use rathole_ng.Config.{ServiceType}
use rathole_ng.Protocol.{ControlChannelCmd, DataChannelCmd, PacketMessage, UdpTraffic, forward_of}

abbrev pub tcp_pool_size : ℕ
tcp_pool_size = 8

abbrev pub udp_pool_size : ℕ
udp_pool_size = 2

abbrev pub udp_buffer_size : ℕ
udp_buffer_size = 2048

-- The requests that a new handle sends first, one for each channel that it keeps in store.
unfoldable pub first_requests : ServiceType → List Bool
first_requests ServiceType.tcp = replicate tcp_pool_size true
first_requests ServiceType.udp = replicate udp_pool_size true

-- A request, `none` where all who could ask are gone, and whether its command could be written; the
-- timer, with the same; the shutdown.
pub data ControlEvent : Type 0 where
  requested : Option Bool → Bool → ControlEvent
  heart_beat_due : Bool → ControlEvent
  shutdown : ControlEvent

-- The commands that the loop of `ControlChannel::run` writes. With an interval of zero the timer's
-- branch is off.
unfoldable pub control_run : ℕ → List ControlEvent → List ControlChannelCmd
control_run interval [] = []
control_run interval (ControlEvent.requested none written ∷ es) = []
control_run interval (ControlEvent.requested (some _) written ∷ es) =
    let rest = control_run interval es in
    if written then ControlChannelCmd.create_data_channel ∷ rest else []
control_run interval (ControlEvent.heart_beat_due written ∷ es) =
    let rest = control_run interval es in
    if interval == 0 then rest else if written then ControlChannelCmd.heart_beat ∷ rest else []
control_run interval (ControlEvent.shutdown ∷ es) = []

-- What the listener sees: an error, with the time to wait, if any; a visitor, and whether a data
-- channel could be asked for; the shutdown.
pub data ListenEvent : Type 0 where
  accept_failed : Option ℕ → ListenEvent
  accepted : SocketAddr → Bool → ListenEvent
  shutdown : ListenEvent

-- The requests and the visitors that the loop of `tcp_listen_and_send` sends.
unfoldable pub tcp_listen_and_send : List ListenEvent → List Bool × List SocketAddr
tcp_listen_and_send [] = ([], [])
tcp_listen_and_send (ListenEvent.accept_failed none ∷ es) = ([], [])
tcp_listen_and_send (ListenEvent.accept_failed (some _) ∷ es) = tcp_listen_and_send es
tcp_listen_and_send (ListenEvent.accepted visitor asked ∷ es) =
    let rest = tcp_listen_and_send es in
    if asked then (true ∷ rest.0, visitor ∷ rest.1) else ([], [])
tcp_listen_and_send (ListenEvent.shutdown ∷ es) = ([], [])

-- A data channel: whether the command can be written to it, and whether a new one can be asked for
-- if it cannot.
pub record DataChannel : Type 0 where
  pub id : ℕ
  pub works : Bool
  pub asked : Bool

abbrev pub start_forward_tcp : SocketAddr → PacketMessage
start_forward_tcp visitor =
    PacketMessage.data_command (DataChannelCmd.start_forward_tcp (forward_of visitor))

-- The visitors that are forwarded, each with its channel and the command written to it; the number of
-- new channels asked for; the channels left.
pub record PoolRun : Type 0 where
  pub forwarded : List (SocketAddr × ℕ × PacketMessage)
  pub requests : ℕ
  pub spare : List DataChannel

-- `run_tcp_connection_pool`, for the visitors and the data channels that come.
unfoldable pub run_tcp_connection_pool : List SocketAddr → List DataChannel → PoolRun
run_tcp_connection_pool [] chs = record { forwarded = []; requests = 0; spare = chs }
run_tcp_connection_pool (visitor ∷ visitors) [] = record {
  forwarded = [];
  requests = 0;
  spare = [];
}
run_tcp_connection_pool (visitor ∷ visitors) (ch ∷ chs) =
    let next = run_tcp_connection_pool visitors chs in
    let again = run_tcp_connection_pool (visitor ∷ visitors) chs in
    if ch.works
    then record next { forwarded = (visitor, ch.id, start_forward_tcp visitor) ∷ next.forwarded }
    else if ch.asked
    then record again { requests = again.requests + 1 }
    else record { forwarded = []; requests = 0; spare = chs }

-- What the loop of the UDP pool sees: a datagram, `none` for an error, and whether it could be
-- forwarded; traffic from the client, with the same; the shutdown.
pub data UdpEvent : Type 0 where
  inbound outbound : Option UdpTraffic → Bool → UdpEvent
  shutdown : UdpEvent

-- What a buffer of 2048 bytes takes of a datagram.
abbrev pub received : UdpTraffic → UdpTraffic
received t = record t { payload = take udp_buffer_size t.payload }

-- What goes to the client and what goes to the visitors.
unfoldable pub udp_pool_loop : List UdpEvent → List UdpTraffic × List UdpTraffic
udp_pool_loop [] = ([], [])
udp_pool_loop (UdpEvent.inbound none sent ∷ es) = ([], [])
udp_pool_loop (UdpEvent.inbound (some t) sent ∷ es) =
    let rest = udp_pool_loop es in if sent then (received t ∷ rest.0, rest.1) else ([], [])
udp_pool_loop (UdpEvent.outbound none sent ∷ es) = ([], [])
udp_pool_loop (UdpEvent.outbound (some t) sent ∷ es) =
    let rest = udp_pool_loop es in if sent then (rest.0, t ∷ rest.1) else ([], [])
udp_pool_loop (UdpEvent.shutdown ∷ es) = ([], [])
