-- ===== src/Protocol/Packet.antt =====
-- crates/protocol/src/audio.rs: one audio datagram, a 12-byte big-endian header before the PCM
-- bytes. A `Bytes` is the list of its bytes. `BytesMut` of the crate `bytes` is a parameter.
pub mod Wire
pub mod ByteList
mod Examples
use soundwave.Base.{
  ℕ, List, [], ◌++◌, ◌∷◌, zero, suc, ◌≡◌, ◌+◌, ◌*◌, ◌/◌, ◌%◌, ◌^◌, ◌<◌, length, take, drop, ltb,
  if◌then◌else◌, Result, ok, err,
}

abbrev pub audio_packet_header_len : ℕ
audio_packet_header_len = 12

pub record AudioPacket : Type 0 where
  pub sequence : ℕ
  pub timestamp : ℕ
  pub payload : List ℕ

pub data PacketError : Type 0 where
  too_short : ℕ → ℕ → PacketError

-- `to_be_bytes` of a word of `n` bytes, and `from_be_bytes`.
unfoldable pub to_be_bytes : ℕ → ℕ → List ℕ
to_be_bytes zero x = []
to_be_bytes (suc n) x = to_be_bytes n (x / 256) ++ (x % 256) ∷ []

unfoldable pub be_value : ℕ → List ℕ → ℕ
be_value acc [] = acc
be_value acc (b ∷ bs) = be_value (acc * 256 + b) bs

abbrev pub from_be_bytes : List ℕ → ℕ
from_be_bytes = be_value 0

-- What `encode` uses of `bytes::BytesMut`: each operation with its documented effect on the bytes
-- that `freeze` returns.
pub record BytesMut : Type 1 where
  pub Buffer : Type 0
  pub with_capacity : ℕ → Buffer
  pub put_u32 : Buffer → ℕ → Buffer
  pub put_u64 : Buffer → ℕ → Buffer
  pub extend_from_slice : Buffer → List ℕ → Buffer
  pub freeze : Buffer → List ℕ
  pub freeze-with_capacity : (n : ℕ) → freeze (with_capacity n) ≡ []
  pub freeze-put_u32 : (b : Buffer) (x : ℕ) → freeze (put_u32 b x) ≡ freeze b ++ to_be_bytes 4 x
  pub freeze-put_u64 : (b : Buffer) (x : ℕ) → freeze (put_u64 b x) ≡ freeze b ++ to_be_bytes 8 x
  pub freeze-extend : (b : Buffer) (l : List ℕ) → freeze (extend_from_slice b l) ≡ freeze b ++ l

unfoldable pub encode : (m : BytesMut) → AudioPacket → List ℕ
encode m p =
    let empty = m.with_capacity (audio_packet_header_len + length p.payload) in
    let numbered = m.put_u32 empty p.sequence in
    let stamped = m.put_u64 numbered p.timestamp in m.freeze (m.extend_from_slice stamped p.payload)

unfoldable pub decode : List ℕ → Result AudioPacket PacketError
decode encoded =
    if ltb (length encoded) audio_packet_header_len
    then err (too_short (length encoded) audio_packet_header_len)
    else ok (record {
      sequence = from_be_bytes (take 4 encoded);
      timestamp = from_be_bytes (take 8 (drop 4 encoded));
      payload = drop audio_packet_header_len encoded;
    })
