-- ===== src/Protocol/Packet/Wire.antt =====
-- The wire format of audio.rs, both ways.
use native.Mathlib.Nat.{pow-suc}
use soundwave.Base.{
  ℕ, List, [], ◌++◌, ◌∷◌, zero, suc, ◌≡◌, ◌↔◌, refl, ◌∙◌, ap, ap₂, ◌+◌, ◌*◌, ◌/◌, ◌%◌, ◌^◌, ◌<◌,
  ◌≤◌, arith, length, take, drop, All, length-append, take-append, drop-append, append_assoc,
  append-nil, take-append-drop, length-take, length-drop, drop-drop, ok, err, le→ltb,
}
use soundwave.Protocol.Packet.{
  AudioPacket, too_short, to_be_bytes, be_value, from_be_bytes, BytesMut, encode, decode,
}

be_value-append :
    (acc : ℕ) (xs ys : List ℕ) → be_value acc (xs ++ ys) ≡ be_value (be_value acc xs) ys
unfolding be_value
be_value-append acc [] ys = refl
be_value-append acc (x ∷ xs) ys = be_value-append (acc * 256 + x) xs ys

pub length-to_be_bytes : (n x : ℕ) → length (to_be_bytes n x) ≡ n
unfolding to_be_bytes
length-to_be_bytes zero x = refl
length-to_be_bytes (suc n) x =
    omega (
      arith,
      length-append (to_be_bytes n (x / 256)) (x % 256 ∷ []),
      length-to_be_bytes n (x / 256),
    )

pub from_be_bytes-to_be_bytes : (n x : ℕ) → x < 256 ^ n → from_be_bytes (to_be_bytes n x) ≡ x
unfolding to_be_bytes be_value
from_be_bytes-to_be_bytes zero x h = omega arith
from_be_bytes-to_be_bytes (suc n) x h =
    be_value-append 0 (to_be_bytes n (x / 256)) (x % 256 ∷ [])
    ∙ omega (arith, pow-suc 256 n, from_be_bytes-to_be_bytes n (x / 256))

-- `x` is a byte.
abbrev pub IsByte : ℕ → Type 0
IsByte x = x < 256

to_be_bytes-be_value :
    (n acc : ℕ) (xs : List ℕ)
    → All IsByte xs
    → to_be_bytes (n + length xs) (be_value acc xs) ≡ to_be_bytes n acc ++ xs
unfolding be_value
to_be_bytes-be_value n acc [] h = rw append-nil (ap (λ k. to_be_bytes k acc) (omega arith))
to_be_bytes-be_value n acc (x ∷ xs) h =
    ap (λ k. to_be_bytes k (be_value (acc * 256 + x) xs)) shift
    ∙ to_be_bytes-be_value (suc n) (acc * 256 + x) xs h.1
    ∙ ap (λ l. l ++ xs) step
    ∙ append_assoc (to_be_bytes n acc) (x ∷ []) xs
  where
    shift : n + length (x ∷ xs) ≡ suc n + length xs
    shift = omega arith

    step : to_be_bytes (suc n) (acc * 256 + x) ≡ to_be_bytes n acc ++ x ∷ []
    step =
        unfold to_be_bytes in
        ap₂ (λ a b. to_be_bytes n a ++ b ∷ []) (omega (arith, h.0)) (omega (arith, h.0))

be_value-lt :
    (k n acc : ℕ) (xs : List ℕ)
    → k ≡ n + length xs
    → acc < 256 ^ n
    → All IsByte xs
    → be_value acc xs < 256 ^ k
unfolding be_value
be_value-lt k n acc [] e h b = let e' : k ≡ n = omega arith in rw e' h
be_value-lt k n acc (x ∷ xs) e h b =
    be_value-lt k (suc n) (acc * 256 + x) xs (omega arith) (omega (arith, pow-suc 256 n, b.0)) b.1

All-take : (n : ℕ) (xs : List ℕ) → All IsByte xs → All IsByte (take n xs)
All-take zero xs h = tt
All-take (suc n) [] h = tt
All-take (suc n) (x ∷ xs) h = (h.0, All-take n xs h.1)

All-drop : (n : ℕ) (xs : List ℕ) → All IsByte xs → All IsByte (drop n xs)
All-drop zero xs h = h
All-drop (suc n) [] h = tt
All-drop (suc n) (x ∷ xs) h = All-drop n xs h.1

to_be_bytes-from_be_bytes :
    (n : ℕ) (xs : List ℕ) → length xs ≡ n → All IsByte xs → to_be_bytes n (from_be_bytes xs) ≡ xs
unfolding to_be_bytes
to_be_bytes-from_be_bytes n xs e h =
    let e' : n ≡ 0 + length xs = omega arith in rw e' (to_be_bytes-be_value 0 0 xs h)

-- The bytes of a packet on the wire.
abbrev pub wire : AudioPacket → List ℕ
wire p = to_be_bytes 4 p.sequence ++ (to_be_bytes 8 p.timestamp ++ p.payload)

take_prefix : (n : ℕ) (a r : List ℕ) → length a ≡ n → take n (a ++ r) ≡ a
take_prefix n a r h = rw (← h) (take-append a r)

drop_prefix : (n : ℕ) (a r : List ℕ) → length a ≡ n → drop n (a ++ r) ≡ r
drop_prefix n a r h = rw (← h) (drop-append a r)

decode_long :
    (l : List ℕ)
    → 12 ≤ length l
    → decode l
      ≡ ok (record {
        sequence = from_be_bytes (take 4 l);
        timestamp = from_be_bytes (take 8 (drop 4 l));
        payload = drop 12 l;
      })
unfolding decode
decode_long l h = rw (le→ltb (length l) 12 h)

decode_parts :
    (a b c : List ℕ)
    → length a ≡ 4
    → length b ≡ 8
    → decode (a ++ (b ++ c))
      ≡ ok (record { sequence = from_be_bytes a; timestamp = from_be_bytes b; payload = c })
decode_parts a b c ha hb =
    decode_long (a ++ (b ++ c)) (omega (arith, length-append {0} a (b ++ c), length-append {0} b c))
    ∙ rw (
      ← drop-drop 8 4 12 (a ++ (b ++ c)) refl,
      take_prefix 4 a (b ++ c) ha,
      drop_prefix 4 a (b ++ c) ha,
      take_prefix 8 b c hb,
      drop_prefix 8 b c hb,
    )

-- A byte string is refused exactly when it is shorter than the header, and the error says its
-- length and the least length.
pub decode-too_short :
    (bytes : List ℕ)
    → ((length bytes < 12) ↔ (decode bytes ≡ err (too_short (length bytes) 12)))
      × ((12 ≤ length bytes) ↔ ((p : AudioPacket) × (decode bytes ≡ ok p)))
unfolding decode
decode-too_short bytes =
    ((λ h. ground arith, λ h. ground arith), (λ h. (_, decode_long bytes h), λ h. ground arith))

module _ (m : BytesMut) where
  pub encode-wire : (p : AudioPacket) → encode m p ≡ wire p
  unfolding encode
  encode-wire p =
      simp
        (m.freeze-extend, m.freeze-put_u64, m.freeze-put_u32, m.freeze-with_capacity, append_assoc)

  -- Encoding and then decoding gives back the packet, for every sequence number of 32 bits and
  -- timestamp of 64 bits.
  pub decode-encode :
      (p : AudioPacket) → p.sequence < 2 ^ 32 → p.timestamp < 2 ^ 64 → decode (encode m p) ≡ ok p
  decode-encode p hs ht = rw (
    encode-wire p,
    decode_parts (to_be_bytes 4 p.sequence) (to_be_bytes 8 p.timestamp) p.payload
        (length-to_be_bytes 4 p.sequence) (length-to_be_bytes 8 p.timestamp),
    from_be_bytes-to_be_bytes 4 p.sequence hs,
    from_be_bytes-to_be_bytes 8 p.timestamp ht,
  )

  -- Whatever byte string decodes is the encoding of what it decodes to, so no two byte strings
  -- stand for one packet, and the decoded numbers are words of 32 and 64 bits.
  pub encode-decode :
      (bytes : List ℕ) (p : AudioPacket)
      → All IsByte bytes
      → decode bytes ≡ ok p
      → (encode m p ≡ bytes) × (p.sequence < 2 ^ 32) × (p.timestamp < 2 ^ 64)
  encode-decode bytes p b h = (
    encode-wire p ∙ rw (← seq, ← stamp, ← rest) joined,
    rw (← seq) (be_value-lt 4 0 0 (take 4 bytes) (omega (arith, len4)) (omega arith) b4),
    rw (← stamp) (be_value-lt 8 0 0 (take 8 (drop 4 bytes)) (omega (arith, len8)) (omega arith) b8),
  )
    where
      long : 12 ≤ length bytes
      long = (decode-too_short bytes).1.1 (p, h)

      seq : from_be_bytes (take 4 bytes) ≡ p.sequence
      seq = cc (decode_long bytes long, h)

      stamp : from_be_bytes (take 8 (drop 4 bytes)) ≡ p.timestamp
      stamp = cc (decode_long bytes long, h)

      rest : drop 12 bytes ≡ p.payload
      rest = cc (decode_long bytes long, h)

      len4 : length (take 4 bytes) ≡ 4
      len4 = omega (arith, length-take 4 bytes, long)

      len8 : length (take 8 (drop 4 bytes)) ≡ 8
      len8 = omega (arith, length-take 8 (drop 4 bytes), length-drop 4 bytes, long)

      b4 : All IsByte (take 4 bytes)
      b4 = All-take 4 bytes b

      b8 : All IsByte (take 8 (drop 4 bytes))
      b8 = All-take 8 (drop 4 bytes) (All-drop 4 bytes b)

      joined :
          to_be_bytes 4 (from_be_bytes (take 4 bytes))
            ++ (to_be_bytes 8 (from_be_bytes (take 8 (drop 4 bytes))) ++ drop 12 bytes)
          ≡ bytes
      joined = rw (
        to_be_bytes-from_be_bytes 4 (take 4 bytes) len4 b4,
        to_be_bytes-from_be_bytes 8 (take 8 (drop 4 bytes)) len8 b8,
        ← drop-drop 8 4 12 bytes refl,
        take-append-drop 8 (drop 4 bytes),
        take-append-drop 4 bytes,
      )
