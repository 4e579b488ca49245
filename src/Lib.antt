-- ===== src/Lib.antt =====
-- rathole-ng forwards ports through a tunnel between a client and a server. The server listens for
-- visitors of each service; the client, behind its firewall, opens a control channel for each of its
-- services and a data channel for each visitor. The library models the parts that carry the
-- program's own logic, from the sources under src/:
--
-- * src/transport/reliability.rs, the reliable streams over UDP. Transport/Packet.antt is the packet
--   header (`encode`, `decode`), Transport/Stream.antt is `StreamState` with `build_ack`,
--   `handle_ack`, `handle_nack` and `push_data`, Transport/Reliability.antt is the timer
--   `get_retransmissions`. Stream/Drain and Stream/Receive have the invariant of the receiver,
--   Stream/Delivery what it delivers, Stream/Acks and Stream/Nack what the sender does with the answers.
-- * src/transport/udp.rs, one connection over UDP. Transport/Udp.antt is `handle_incoming` and
--   `handle_tick`, Udp/Io.antt the reader and the writer of a `UdpStream`, Udp/Datagram.antt what is
--   sent and opened, Udp/Dispatch.antt the listener's `on_packet`. Udp/Task.antt puts them together:
--   the task of `UdpStream::new` and the stream's owner, with their events in any order.
--   Transport/Session.antt has the two ends of a stream over a network that loses, repeats, delays
--   and reorders packets, as a step relation.
-- * src/multi_map.rs, a map with two keys over shared boxes: MultiMap.antt, with an explicit heap.
--   A read or a free of a dead box is a fault. MultiMap/Contents.antt is its list of entries,
--   MultiMap/Refinement.antt relates the two, and MultiMap/Replacing.antt is the way in which the
--   server replaces a channel. `get1_mut` and `get_mut2` look up as `get1` and `get2` do and are not
--   repeated.
-- * src/config.rs, the configuration. Config.antt has the types, Config/Validation.antt the
--   validation and `from_str`, Config/Resolved.antt what it fills in, Config/Acceptance.antt what it
--   accepts. Config/Ports.antt is `is_port_allowed`, over the decimal numbers of Config/Decimal.antt.
-- * src/protocol.rs, the messages. Protocol.antt has the types, the frames and the typed readers, over
--   `bincode` as an argument, Protocol/Frames.antt what is read back.
-- * src/server.rs. Server.antt has the map of services by digest and `handle_hot_reload`, which uses
--   the map with two keys; Server/Handshake.antt the handshake of a control channel and the
--   lookup in that of a data channel, Server/Visitor.antt that of a visitor and the dispatch of a
--   connection, Server/Channel.antt what runs behind a handle: the loop of the control channel, the
--   listener and the pools.
--   Server/Running.antt is the loop of `Server::run`, where a handshake waits for its client while
--   other connections and hot reloads come in between.
-- * src/client.rs. Client.antt has the client's channels and its hot reload, Client/Handshake.antt the
--   handshakes, Client/Control.antt the loop of a control channel and the task that runs it again,
--   Client/Channel.antt a whole run, Client/DataChannel.antt what a data channel forwards, with the
--   PROXY header, and Client/Forwarder.antt the visitors of a UDP service. Client/Agreement.antt,
--   Client/Visiting.antt and Client/Tunnel.antt compose the client with the server.
-- * src/transport/noise.rs and the choice of the transport in `run_client` and `run_server`:
--   Transport/Noise.antt, with what a Noise handshake is set up with.
-- * src/config_watcher.rs. Watcher.antt has `calculate_events` and one round of the watcher's loop,
--   Watcher/Replay.antt, Watcher/Tracking.antt and Watcher/Rounds.antt what the events do.
-- * src/lib.rs. Run.antt has `determine_run_mode`, Run/Loop.antt the loop of `run` with its instance
--   and the watcher in front of it.
-- * src/helper.rs and src/transport/mod.rs: Helper.antt has `host_port_pair`, the choice of an address
--   and the socket options, Helper/Connect.antt a TCP connection with or without a proxy.
--
-- Prelude and Collections hold what the parts share: Boolean tests, bytes, bits, `HashMap` and
-- `BTreeMap` as association lists. Net.antt is the socket address.
--
-- State is passed explicitly; each function that holds the lock of a stream for its whole body is one
-- step. Tasks that run beside each other are lists of events in any order, or step relations. Clocks,
-- random bytes, the cipher, digests and the parsers of other packages are arguments. Numbers are
-- natural numbers, and an addition that may wrap in a `u64` or a `u32` is written with `%`. The loop of
-- `push_data` runs on the length of the buffer as its fuel, and each round removes one packet, so that
-- the fuel is enough (Stream/Drain). Times are in nanoseconds.
--
-- Not modelled: the sockets themselves, the copy of bytes between two of them and the queues of the
-- runtime beyond what a step reads and writes, as these are I/O of other packages; what the
-- packages for Noise and for sockets do under src/transport/noise.rs and src/transport/tcp.rs; the
-- options, the mode and the hand-over of a data channel in the server's handshake; the
-- command line's parser, the key generation, the file watch of the
-- notify package, the default values that serde fills in, and logging. A lock of the runtime that two
-- tasks wait for is taken at once here, so that deadlocks are not seen.
pub mod Prelude
pub mod Client
pub mod Collections
pub mod Net
pub mod Transport
pub mod Helper
pub mod MultiMap
pub mod Config
pub mod Watcher
pub mod Protocol
pub mod Server
pub mod Run
