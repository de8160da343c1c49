-- ===== src/Transport/Datagram.antt =====
-- crates/transport/src/datagram.rs and error.rs. What quinn does for one call is a parameter: the
-- size that it advertises then, and the outcome of `send_datagram`.
use soundwave.Base.{ℕ, List, Option, none, some, ltb, if◌then◌else◌, length, ◌-◌, Result, ok, err}
use soundwave.Protocol.Packet.{
  AudioPacket, BytesMut, encode, decode, audio_packet_header_len, PacketError,
}

-- A text is the list of its code points.
pub data TransportError : Type 0 where
  quinn : List ℕ → TransportError
  control_message_too_large : ℕ → ℕ → TransportError
  datagram_unsupported : TransportError
  datagram_too_large : ℕ → ℕ → TransportError
  certificate : List ℕ → TransportError

-- `quinn::Connection` as one call sees it; an error is its text.
pub record Connection : Type 0 where
  pub max_datagram_size : Option ℕ
  pub send_datagram : List ℕ → Result (Unit {0}) (List ℕ)

-- `DatagramSender::new` and `DatagramReceiver::new`.
unfoldable pub open_datagrams : Connection → Result (Unit {0}) TransportError
open_datagrams connection = elim connection.max_datagram_size [
  | none ↦ err datagram_unsupported
  | some size ↦ ok tt
]

abbrev pub size_or_zero : Option ℕ → ℕ
size_or_zero none = 0
size_or_zero (some size) = size

unfoldable pub max_payload_len : Connection → ℕ
max_payload_len connection = size_or_zero connection.max_datagram_size - audio_packet_header_len

-- `map_err(|error| TransportError::Quinn(error.to_string()))`
abbrev pub or_quinn {ℓ} : {A : Type ℓ} → Result A (List ℕ) → Result A TransportError
or_quinn (ok a) = ok a
or_quinn (err text) = err (quinn text)

unfoldable pub send : BytesMut → Connection → AudioPacket → Result (Unit {0}) TransportError
send m connection packet =
    let encoded = encode m packet in
    elim connection.max_datagram_size [
      | none ↦ err datagram_unsupported
      | some allowed ↦
          if ltb allowed (length encoded)
          then err (datagram_too_large (length encoded) allowed)
          else or_quinn (connection.send_datagram encoded)
    ]

-- `receive` on what `read_datagram` returned; `describe` is the error's `to_string`.
unfoldable pub receive :
    (PacketError → List ℕ) → Result (List ℕ) (List ℕ) → Result AudioPacket TransportError
receive describe (err text) = err (quinn text)
receive describe (ok encoded) = elim (decode encoded) [
  | ok packet ↦ ok packet
  | err error ↦ err (quinn (describe error))
]
