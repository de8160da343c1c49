-- ===== src/Protocol/Packet/Examples.antt =====
-- The packet of the source's test, on the wire and back.
use soundwave.Base.{ℕ, List, [], ◌∷◌, ◌^◌, ◌<◌, ◌≡◌, refl, arith, ok}
use soundwave.Protocol.Packet.{AudioPacket, to_be_bytes, be_value, encode, decode}
use soundwave.Protocol.Packet.ByteList.{byte_list}
use soundwave.Protocol.Packet.Wire.{decode-encode, encode-decode}

abbrev packet : AudioPacket
packet = record {
  sequence = 0x0102_0304;
  timestamp = 0x0102_0304_0506_0708;
  payload = 0x34 ∷ 0x12 ∷ 0x78 ∷ 0x56 ∷ [];
}

abbrev packet_bytes : List ℕ
packet_bytes = 1 ∷ 2 ∷ 3 ∷ 4 ∷ 1 ∷ 2 ∷ 3 ∷ 4 ∷ 5 ∷ 6 ∷ 7 ∷ 8 ∷ 0x34 ∷ 0x12 ∷ 0x78 ∷ 0x56 ∷ []

encode-packet : encode byte_list packet ≡ packet_bytes
unfolding encode to_be_bytes
encode-packet = refl

decode-packet : decode packet_bytes ≡ ok packet
unfolding decode be_value
decode-packet = refl

decode-encode_example : decode (encode byte_list packet) ≡ ok packet
decode-encode_example = decode-encode byte_list packet (omega arith) (omega arith)

encode-decode_example :
    (encode byte_list packet ≡ packet_bytes)
    × (0x0102_0304 < 2 ^ 32)
    × (0x0102_0304_0506_0708 < 2 ^ 64)
encode-decode_example = encode-decode byte_list packet_bytes packet (omega arith) decode-packet
