-- ===== src/Client/ChannelTests.antt =====
-- A data channel, the loops of a control channel, and two visitors of a UDP service.
use rathole_ng.Prelude.{ℕ, ◌≡◌, refl, true, false, none, some, List, [], ◌∷◌, ◌++◌, arith}
use mathlib.Core.List.{List-discrete}
use rathole_ng.Prelude.{ℕ_discrete}
use rathole_ng.Net.{SocketAddr}
use rathole_ng.Config.{Text, ServiceType, ProxyProtocol, ClientServiceConfig}
use rathole_ng.Protocol.{DataChannelCmd, forward_of}
use rathole_ng.Server.Channel.{ControlEvent}
use rathole_ng.Client.DataChannel.{CmdRead, Forwarding, run_data_channel}
use rathole_ng.Client.ProxyHeader.{read_v2, data_channel_names_visitor}
use rathole_ng.Client.Retrying.{requests_of}
use rathole_ng.Collections.HashMap
use rathole_ng.Client.Forwarder.{
  Forwarders, UdpStep, no_forwarders, set_up, hand_over, send_back, clean_up, udp_step, udp_steps,
}
use rathole_ng.Client.Stranding.{IsStranded, of_visitor, failed_forwarder_strands}
use rathole_ng.Client.Isolation.{AreOwned, udp_steps_isolate}

abbrev service : ClientServiceConfig
service = record {
  service_type = ServiceType.tcp;
  name = 115 ∷ [];
  local_addr = 5 ∷ [];
  prefer_ipv6 = false;
  user = none;
  token = some (1 ∷ []);
  nodelay = none;
  retry_interval = some 1;
  remote_bind_addr = none;
  proxy_protocol = some ProxyProtocol.v2;
}

abbrev visitor : SocketAddr
visitor = SocketAddr.v4 (10 ∷ 0 ∷ 0 ∷ 7 ∷ []) 40_000

abbrev local : SocketAddr
local = SocketAddr.v4 (127 ∷ 0 ∷ 0 ∷ 1 ∷ []) 22

abbrev show_ip : SocketAddr → Text
show_ip a = []

abbrev show : ℕ → Text
show n = []

data_channel_names_visitor_example :
    (bytes : List ℕ) × ((run_data_channel show_ip show service
        (CmdRead.cmd (DataChannelCmd.start_forward_tcp (forward_of visitor)))
        (some (some local))).1
      ≡ Forwarding.tcp bytes)
    × (read_v2 (bytes ++ 71 ∷ []) ≡ some (visitor, local, 71 ∷ []))
data_channel_names_visitor_example =
    data_channel_names_visitor show_ip show service visitor local (71 ∷ []) refl refl
      (refl, omega arith) (refl, omega arith) refl

abbrev control_events : List ControlEvent
control_events =
    ControlEvent.requested (some true) true
    ∷ ControlEvent.heart_beat_due true
    ∷ ControlEvent.requested (some true) true
    ∷ ControlEvent.shutdown
    ∷ []

requests_answered : requests_of 30 control_events ≡ 2
unfolding requests_of
requests_answered = refl

abbrev addr_discrete : Discrete SocketAddr
addr_discrete = hlevel (ℕ_discrete, List-discrete)

abbrev other : SocketAddr
other = SocketAddr.v4 (10 ∷ 0 ∷ 0 ∷ 8 ∷ []) 40_000

abbrev steps : List UdpStep
steps =
    UdpStep.packet (record { from = visitor; payload = 1 ∷ [] }) true
    ∷ UdpStep.packet (record { from = other; payload = 2 ∷ [] }) true
    ∷ UdpStep.reply 1 (9 ∷ [])
    ∷ UdpStep.ended 1
    ∷ UdpStep.packet (record { from = other; payload = 3 ∷ [] }) true
    ∷ []

udp_steps_isolate_example :
    (owner : ℕ → SocketAddr) × AreOwned owner
      (udp_steps addr_discrete steps no_forwarders).made
      (udp_steps addr_discrete steps no_forwarders).given
    × AreOwned owner
        (udp_steps addr_discrete steps no_forwarders).made
        (udp_steps addr_discrete steps no_forwarders).outbound
udp_steps_isolate_example = udp_steps_isolate addr_discrete steps

abbrev stranded : Forwarders
stranded =
    udp_steps addr_discrete steps
      (udp_step addr_discrete (UdpStep.failed 0) (udp_steps addr_discrete steps no_forwarders))

failed_forwarder_strands_example :
    IsStranded addr_discrete visitor 0 stranded
    × (of_visitor addr_discrete visitor stranded.given
        ≡ of_visitor addr_discrete visitor (udp_steps addr_discrete steps no_forwarders).given)
unfolding udp_steps udp_step set_up hand_over send_back clean_up HashMap.get HashMap.insert
    HashMap.remove HashMap.contains_key
failed_forwarder_strands_example =
    failed_forwarder_strands addr_discrete steps steps 0 visitor (ground arith)
