-- ===== src/Client/Forwarder.antt =====
-- src/client.rs: the visitors of a UDP service, each with its own socket.
-- A forwarder is a number, given when its socket is made. Of a packet its queue takes the bytes; the
-- source stays beside them here. The queues have room, and the end of a forwarder's loop and its
-- write to the map are one step.
use rathole_ng.Prelude.{ℕ, ◌+◌, Bool, none, some, List, [], ◌∷◌, if◌then◌else◌, ℕ_discrete, take}
use rathole_ng.Collections.HashMap
use rathole_ng.Net.{SocketAddr}
use rathole_ng.Protocol.{UdpTraffic}
use rathole_ng.Server.Channel.{udp_buffer_size}

-- `UdpPortMap`; the forwarders that run, each with its `from`; the number of those made so far; what
-- each was given, and what each sent towards the server.
pub record Forwarders : Type 0 where
  pub port_map : List (SocketAddr × ℕ)
  pub tasks : List (ℕ × SocketAddr)
  pub made : ℕ
  pub given : List (ℕ × UdpTraffic)
  pub outbound : List (ℕ × UdpTraffic)

abbrev pub no_forwarders : Forwarders
no_forwarders = record { port_map = []; tasks = []; made = 0; given = []; outbound = [] }

-- A packet from the server, and whether `udp_connect` succeeds; what the socket of a forwarder
-- receives; a forwarder whose loop ends, by its timeout or as nothing can be received; one that a
-- failed send ends, which returns at once.
pub data UdpStep : Type 0 where
  packet : UdpTraffic → Bool → UdpStep
  reply : ℕ → List ℕ → UdpStep
  ended : ℕ → UdpStep
  failed : ℕ → UdpStep

module _ (dec : Discrete SocketAddr) where
  -- The branch for an address with no forwarder.
  unfoldable pub set_up : SocketAddr → Bool → Forwarders → Forwarders
  set_up from connected f = elim (HashMap.get dec from f.port_map) [
    | some _ ↦ f
    | none ↦
        if connected
        then record f {
          port_map = HashMap.insert dec from f.made f.port_map;
          tasks = HashMap.insert ℕ_discrete f.made from f.tasks;
          made = f.made + 1;
        }
        else f
  ]

  -- `if let Some(tx) = m.get(&packet.from)`: the send fails if the forwarder is gone.
  unfoldable pub hand_over : UdpTraffic → Forwarders → Forwarders
  hand_over t f = elim (HashMap.get dec t.from f.port_map) [
    | none ↦ f
    | some tx ↦
        if HashMap.contains_key ℕ_discrete tx f.tasks
        then record f { given = (tx, t) ∷ f.given }
        else f
  ]

  -- The branch of `run_udp_forwarder` for the service's datagrams.
  unfoldable pub send_back : ℕ → List ℕ → Forwarders → Forwarders
  send_back i bytes f = elim (HashMap.get ℕ_discrete i f.tasks) [
    | none ↦ f
    | some from ↦ record f {
      outbound = (i, record { from = from; payload = take udp_buffer_size bytes }) ∷ f.outbound;
    }
  ]

  -- The end of `run_udp_forwarder` after its loop.
  unfoldable pub clean_up : ℕ → Forwarders → Forwarders
  clean_up i f = elim (HashMap.get ℕ_discrete i f.tasks) [
    | none ↦ f
    | some from ↦ record f {
      port_map = HashMap.remove dec from f.port_map;
      tasks = HashMap.remove ℕ_discrete i f.tasks;
    }
  ]

  -- One round of the loop of `run_data_channel_for_udp`, or of a forwarder's.
  unfoldable pub udp_step : UdpStep → Forwarders → Forwarders
  unfolding set_up hand_over send_back clean_up
  udp_step (UdpStep.packet t connected) f = hand_over t (set_up t.from connected f)
  udp_step (UdpStep.reply i bytes) f = send_back i bytes f
  udp_step (UdpStep.ended i) f = clean_up i f
  udp_step (UdpStep.failed i) f = record f { tasks = HashMap.remove ℕ_discrete i f.tasks }

  unfoldable pub udp_steps : List UdpStep → Forwarders → Forwarders
  udp_steps [] f = f
  udp_steps (s ∷ steps) f = udp_steps steps (udp_step s f)
