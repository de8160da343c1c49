-- ===== src/Server.antt =====
-- The Windows server, windows-server/src.
pub mod Silence
pub mod Packetizer
pub mod Registry
pub mod Profiles
pub mod Volume
