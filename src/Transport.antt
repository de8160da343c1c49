-- ===== src/Transport.antt =====
-- The QUIC helpers of crates/transport. The crates quinn, rustls, rcgen and postcard are parameters.
pub mod Datagram
pub mod Fingerprint
pub mod Framing
