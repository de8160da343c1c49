-- ===== src/Android.antt =====
-- The native streaming core of the Android client, android/app/src/main/rust.
pub mod Jitter
pub mod Ring
pub mod Receiver
pub mod Device
pub mod State
