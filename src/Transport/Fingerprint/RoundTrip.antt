-- ===== src/Transport/Fingerprint/RoundTrip.antt =====
-- Fingerprints as text and back.
use soundwave.Base.{
  ℕ, ◌+◌, ◌*◌, ◌/◌, ◌%◌, ◌≡◌, ◌↔◌, ◌<◌, refl, ap, ◌∙◌, arith, List, [], ◌∷◌, ◌++◌, true, false,
  Option, none, some, All, append_assoc, length, ltb, ◌==◌, Result, ok, err,
}
use soundwave.Base.Text.{utf8, text_eq→eq, text_eq_refl}
use soundwave.Transport.Fingerprint.{
  hex_digit, format_byte, format_fingerprint, hex_nibble, is_separator, FingerprintError, and_byte,
  parse_pairs, compact, parse_fingerprint, verify_server_cert, hex_text, encode_pairing_uri,
  link_head, host_text, port_key, decimal, fingerprint_key,
}

abbrev pub IsByte : ℕ → Type 0
IsByte n = n < 256

hex_digit_lem :
    (n : ℕ)
    → n < 16
    → (hex_nibble (hex_digit n) ≡ some n)
      × (is_separator (hex_digit n) ≡ false)
      × (ltb (hex_digit n) 128 ≡ true)
unfolding hex_nibble
hex_digit_lem n h = (ground arith, ground arith, ground arith)

module _ (byte : ℕ) (h : byte < 256) where
  high_digit : byte / 16 < 16
  high_digit = omega arith

  compact_byte :
      (rest : List ℕ) → compact (format_byte byte ++ rest) ≡ format_byte byte ++ compact rest
  compact_byte rest =
      let high = (hex_digit_lem (byte / 16) high_digit).1 in
      let low = (hex_digit_lem (byte % 16) (omega arith)).1 in rw (high, low) refl

  utf8_byte : (rest : List ℕ) → utf8 (format_byte byte ++ rest) ≡ format_byte byte ++ utf8 rest
  utf8_byte rest =
      let high = (hex_digit_lem (byte / 16) high_digit).2 in
      let low = (hex_digit_lem (byte % 16) (omega arith)).2 in rw (high, low) refl

  parse_byte :
      (rest : List ℕ)
      → parse_pairs (format_byte byte ++ rest)
        ≡ and_byte (some (byte / 16)) (some (byte % 16)) (parse_pairs rest)
  unfolding parse_pairs
  parse_byte rest =
      let high = (hex_digit_lem (byte / 16) high_digit).0 in
      let low = (hex_digit_lem (byte % 16) (omega arith)).0 in rw (high, low) refl

compact-format :
    (bytes : List ℕ) → All IsByte bytes → compact (format_fingerprint bytes) ≡ hex_text bytes
unfolding format_fingerprint
compact-format [] h = refl
compact-format (byte ∷ []) h = compact_byte byte h.0 []
compact-format (byte ∷ next ∷ bytes) h =
    compact_byte byte h.0 (b':' ∷ format_fingerprint (next ∷ bytes))
    ∙ ap (λ l. format_byte byte ++ l) (compact-format (next ∷ bytes) h.1)

compact-hex_text : (bytes : List ℕ) → All IsByte bytes → compact (hex_text bytes) ≡ hex_text bytes
compact-hex_text [] h = refl
compact-hex_text (byte ∷ bytes) h =
    compact_byte byte h.0 (hex_text bytes)
    ∙ ap (λ l. format_byte byte ++ l) (compact-hex_text bytes h.1)

utf8-hex_text : (bytes : List ℕ) → All IsByte bytes → utf8 (hex_text bytes) ≡ hex_text bytes
utf8-hex_text [] h = refl
utf8-hex_text (byte ∷ bytes) h =
    utf8_byte byte h.0 (hex_text bytes) ∙ ap (λ l. format_byte byte ++ l) (utf8-hex_text bytes h.1)

length-hex_text : (bytes : List ℕ) → length (hex_text bytes) ≡ 2 * length bytes
length-hex_text [] = omega arith
length-hex_text (byte ∷ bytes) = omega (arith, length-hex_text bytes)

and_byte-join :
    (byte : ℕ) (bytes : List ℕ)
    → and_byte (some (byte / 16)) (some (byte % 16)) (ok bytes) ≡ ok (byte ∷ bytes)
and_byte-join byte bytes = let e : byte / 16 * 16 + byte % 16 ≡ byte = omega arith in rw e refl

parse_pairs-hex_text : (bytes : List ℕ) → All IsByte bytes → parse_pairs (hex_text bytes) ≡ ok bytes
unfolding parse_pairs
parse_pairs-hex_text [] h = refl
parse_pairs-hex_text (byte ∷ bytes) h =
    parse_byte byte h.0 (hex_text bytes)
    ∙ ap (and_byte (some (byte / 16)) (some (byte % 16))) (parse_pairs-hex_text bytes h.1)
    ∙ and_byte-join byte bytes

parse-compact :
    (text bytes : List ℕ)
    → compact text ≡ hex_text bytes
    → All IsByte bytes
    → length bytes ≡ 32
    → parse_fingerprint text ≡ ok bytes
unfolding parse_fingerprint
parse-compact text bytes e h l =
    let whole : (length (hex_text bytes) == 64) ≡ true = ground (arith, length-hex_text bytes) in
    rw (e, utf8-hex_text bytes h, whole) (parse_pairs-hex_text bytes h)

-- A fingerprint of 32 bytes is read back from its text with colons, and from the end of the pairing
-- link, which is its text without colons.
pub parse-format_fingerprint :
    (host : ℕ × ℕ × ℕ × ℕ) (port : ℕ) (bytes : List ℕ)
    → All IsByte bytes
    → length bytes ≡ 32
    → (parse_fingerprint (format_fingerprint bytes) ≡ ok bytes)
      × ((front : List ℕ) × (encode_pairing_uri host port bytes ≡ front ++ hex_text bytes)
          × (parse_fingerprint (hex_text bytes) ≡ ok bytes))
unfolding encode_pairing_uri
parse-format_fingerprint host port bytes h l = (
  parse-compact (format_fingerprint bytes) bytes (compact-format bytes h) h l,
  (
    link_head ++ (host_text host ++ (port_key ++ (decimal 5 port ++ fingerprint_key))),
    simp append_assoc,
    parse-compact (hex_text bytes) bytes (compact-hex_text bytes h) h l,
  ),
)

hex_nibble_lt : (c n : ℕ) → hex_nibble c ≡ some n → n < 16
unfolding hex_nibble
hex_nibble_lt c n h = ground arith

and_byte-ok :
    (high low : Option ℕ) (r : Result (List ℕ) FingerprintError) (bytes : List ℕ)
    → and_byte high low r ≡ ok bytes
    → (h : ℕ) × (l : ℕ) × (rest : List ℕ) × (high ≡ some h)
      × (low ≡ some l)
      × (r ≡ ok rest)
      × (bytes ≡ (h * 16 + l) ∷ rest)
and_byte-ok none low r bytes e = absurd (ground arith)
and_byte-ok (some h) none r bytes e = absurd (ground arith)
and_byte-ok (some h) (some l) (err x) bytes e = absurd (ground arith)
and_byte-ok (some h) (some l) (ok rest) bytes e = (h, l, rest, refl, refl, refl, ground arith)

parse_pairs-ok :
    (text bytes : List ℕ)
    → parse_pairs text ≡ ok bytes
    → (length bytes ≡ length text / 2) × All IsByte bytes
unfolding parse_pairs
parse_pairs-ok [] [] e = (refl, tt)
parse_pairs-ok [] (b ∷ bs) e = absurd (ground arith)
parse_pairs-ok (c ∷ []) [] e = (omega arith, tt)
parse_pairs-ok (c ∷ []) (b ∷ bs) e = absurd (ground arith)
parse_pairs-ok (c ∷ d ∷ text) bytes e =
    let (h, l, rest, high, low, parsed, whole) =
      and_byte-ok (hex_nibble c) (hex_nibble d) (parse_pairs text) bytes e in
    let (half, fit) = parse_pairs-ok text rest parsed in
    rw whole
      (omega (arith, half), (omega (arith, hex_nibble_lt c h high, hex_nibble_lt d l low), fit))

-- Whatever text is read, the fingerprint has 32 bytes, and its own text with colons is read as the
-- same fingerprint. The certificate check then accepts exactly the certificates with that hash.
pub parse_fingerprint_ok :
    (sha256 : List ℕ → List ℕ) (text bytes certificate : List ℕ)
    → parse_fingerprint text ≡ ok bytes
    → (length bytes ≡ 32)
      × (parse_fingerprint (format_fingerprint bytes) ≡ ok bytes)
      × ((verify_server_cert sha256 bytes certificate ≡ ok tt) ↔ (sha256 certificate ≡ bytes))
unfolding parse_fingerprint verify_server_cert
parse_fingerprint_ok sha256 text bytes certificate e =
    let digits = utf8 (compact text) in
    let whole : length digits ≡ 64 = ground arith in
    let (half, fit) = parse_pairs-ok digits bytes (ground arith) in
    let l : length bytes ≡ 32 = omega arith in
    (
      l,
      parse-compact (format_fingerprint bytes) bytes (compact-format bytes fit) fit l,
      (
        λ h. text_eq→eq (sha256 certificate) bytes (ground arith),
        λ h. rw h (rw (text_eq_refl bytes) refl),
      ),
    )
