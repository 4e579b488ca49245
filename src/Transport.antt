-- ===== src/Transport.antt =====
-- src/transport: the packets, the reliable streams and the endpoints of the UDP transport.
pub mod Packet
pub mod Stream
pub mod Reliability
pub mod Udp
pub mod Noise
pub mod Session
