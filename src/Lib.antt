-- ===== src/Lib.antt =====
-- Soundwave sends what a Windows computer plays to Android devices on the same network. The server
-- captures PCM in blocks, cuts them into packets and sends these as QUIC datagrams; a device puts
-- the packets in order in a jitter buffer, and its player reads the samples from a ring. Over a
-- control stream the server asks each device for its volume, and it lets a device play only while
-- the device reports the status that playback was approved for.
--
-- Base: what the other modules share (Boolean tests and lists on native numbers, machine words with
-- their wrap-around, results, and BTreeMap, the ordered map of std, with its laws).
--
-- Protocol.Control: the messages of the control stream, crates/protocol/src/control.rs. Their
-- encoding by the crate postcard is not modelled.
-- Protocol.Packet: `AudioPacket::encode` and `decode`, crates/protocol/src/audio.rs and error.rs. A
-- byte string is a list of numbers; the buffer of the crate bytes is the parameter `BytesMut`, with
-- the effect of each operation on the bytes it ends as.
--
-- Transport.Datagram: `DatagramSender` and `DatagramReceiver`, crates/transport/src/datagram.rs, with
-- the error type of error.rs. The connection of the crate quinn is a parameter.
-- Transport.Framing: `ControlWriter` and `ControlReader`, crates/transport/src/control.rs: a length of
-- two bytes before each message. The codec of the crate postcard and the two streams of the crate
-- quinn are parameters; a call is one step of its stream.
-- Transport.Fingerprint: the text of a certificate's fingerprint and the comparison that pins a
-- certificate, crates/transport/src/config.rs, and the pairing link, pairing.rs beside it. A text is
-- its bytes; SHA-256 is a parameter. The identity files and the configuration of TLS are not modelled.
--
-- Android.Jitter: `JitterBuffer` with all its operations, android/app/src/main/rust/src/jitter.rs. The
-- fields are those of the source; `drain_ready` is a loop on fuel, and `none` is a loop that the fuel
-- does not end. The fuel allows each buffered packet the longest gap that is filled with silence and
-- its own round, and one more for the end. `push_at` is `push` once the expected number is
-- known.
-- Android.Ring: `PcmRingBuffer` with all its operations, android/app/src/main/rust/src/ring_buffer.rs.
-- The queue of the crate crossbeam is the parameter `ArrayQueue` with its documented laws; the
-- atomics are fields, and each call is one step, as when one thread uses the ring. `clear` is a loop
-- on fuel, one more than the samples held.
-- Android.Receiver: `ReceiverPipeline`, android/app/src/main/rust/src/receiver.rs, which takes each
-- packet through the jitter buffer into the ring and lets the target grow after a stutter, and counts
-- in `SharedState`.
-- Android.State: `ClientState` and `SharedState`, android/app/src/main/rust/src/state.rs, with every
-- operation that changes it; each is one step. Waiting for a new revision is not modelled.
-- Android.Device: `DeviceControl`, android/app/src/main/rust/src/device_control.rs: the commands for the
-- player, the reports to the server and the calibration tone. The clock is an argument, in
-- nanoseconds, one for each time that a call reads it to compare or to store (`report_playback` has
-- three); the sine of a sample is a parameter.
--
-- Server.Silence: `SilenceDetector`, windows-server/src/network/silence.rs, and the flags of
-- `AudioTransmissionGate`, windows-server/src/audio/transmission.rs. Waiting on the gate is not
-- modelled.
-- Server.Packetizer: `choose_packet_duration_ms`, `Packetizer` and `StreamCounters` of
-- windows-server/src/network/server.rs, on the blocks of windows-server/src/audio/mod.rs. The
-- closure that a block is cut for is a function on an explicit state; the loops run on fuel, the
-- number of samples of the block, and each round takes at least one sample. The timestamps within a
-- block are exact numbers, where the source adds in 64 bits. Lockstep compares the loops with those
-- of a callback that only notes the packets.
-- Server.Registry: `ReceiverRegistry`, windows-server/src/application/registry.rs: the state and what
-- concerns all receivers; Requests is what is sent to one receiver, Device what one receiver reports.
-- Step has the operations as data and the registries they lead to. A call holds the lock, so it is
-- one step. The queue of control messages of the crate tokio is the parameter `Controls`, with
-- `try_send` alone; the static request counter is a field of the registry, and what is logged is left
-- out. A playback gate is the flag of its receiver.
-- Server.Profiles: profiles and their library, windows-server/src/volume_profiles.rs. `check_library`
-- is what `Library::load` demands after the crate postcard has decoded the file; the file itself is
-- not modelled. `put` returns the new library.
-- Server.Volume: `VolumeController`, windows-server/src/application/volume_control.rs, over the
-- registry and the library of profiles. Asking is `set_volume`; Reviewing, Driving and Ticking are the
-- parts of `tick`, in their order; Editing and Window are the calibration window and the editing of
-- profiles; Calls has the calls as data. `Disk` is a parameter that says which library can be written;
-- `tick`, `set_volume` and `set_master` are `none` where the code would panic. A call holds its lock, and the clock is an argument,
-- read once in a call; operations of other threads on the registry come between calls.
--
-- Not modelled: the windows and the tray of the server, the capture of audio and the devices of the
-- operating system, threads, tasks and sockets, the conversion of floating-point samples, the
-- calibration wizard, the capture hub, the QR code of the pairing, the session on each side, and the
-- Kotlin part of the Android application.
pub mod Android
pub mod Base
pub mod Protocol
pub mod Server
pub mod Transport
