-- ===== src/Protocol.antt =====
-- The wire protocol of crates/protocol: the audio datagram and the control messages.
pub mod Packet
pub mod Control
