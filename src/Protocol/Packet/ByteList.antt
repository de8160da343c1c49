-- ===== src/Protocol/Packet/ByteList.antt =====
-- A `BytesMut` that is the list of its bytes, for runs of the model.
use soundwave.Base.{ℕ, List, [], ◌++◌, refl}
use soundwave.Protocol.Packet.{BytesMut, to_be_bytes}

abbrev pub byte_list : BytesMut
byte_list = record {
  Buffer = List ℕ;
  with_capacity = λ n. [];
  put_u32 = λ b x. b ++ to_be_bytes 4 x;
  put_u64 = λ b x. b ++ to_be_bytes 8 x;
  extend_from_slice = λ b l. b ++ l;
  freeze = λ b. b;
  freeze-with_capacity = λ n. refl;
  freeze-put_u32 = λ b x. refl;
  freeze-put_u64 = λ b x. refl;
  freeze-extend = λ b l. refl;
}
