-- ===== src/Transport/Fingerprint.antt =====
-- crates/transport/src/config.rs: the fingerprint of a certificate as text, and its check; and
-- crates/transport/src/pairing.rs: the pairing link. A text is the list of its code points, and a
-- fingerprint is a list of 32 bytes. SHA-256 of the crate sha2 is a parameter.
pub mod RoundTrip
mod Examples
use soundwave.Base.{
  ℕ, zero, suc, ◌+◌, ◌-◌, ◌*◌, ◌/◌, ◌%◌, List, [], ◌∷◌, ◌++◌, Bool, true, false, not, ◌&&◌, ◌||◌,
  Option, none, some, length, filter_by, ltb, leb, ◌==◌, if◌then◌else◌, Result, ok, err,
}
use soundwave.Base.Text.{text_eq, utf8}

-- One digit of `{byte:02X}`.
abbrev pub hex_digit : ℕ → ℕ
hex_digit n = if ltb n 10 then b'0' + n else b'A' + (n - 10)

abbrev pub format_byte : ℕ → List ℕ
format_byte byte = hex_digit (byte / 16) ∷ hex_digit (byte % 16) ∷ []

-- `collect::<Vec<_>>().join(":")`
unfoldable pub format_fingerprint : List ℕ → List ℕ
format_fingerprint [] = []
format_fingerprint (byte ∷ []) = format_byte byte
format_fingerprint (byte ∷ next ∷ bytes) =
    format_byte byte ++ b':' ∷ format_fingerprint (next ∷ bytes)

unfoldable pub hex_nibble : ℕ → Option ℕ
hex_nibble byte =
    if leb b'0' byte && leb byte b'9'
    then some (byte - b'0')
    else if leb b'a' byte && leb byte b'f'
    then some (byte - b'a' + 10)
    else if leb b'A' byte && leb byte b'F'
    then some (byte - b'A' + 10)
    else none

abbrev pub is_separator : ℕ → Bool
is_separator c = c == b':' || (c == b'-' || (c == b' ' || (c == 9 || (c == 13 || c == 10))))

-- `TransportError::Certificate` with its text as a case.
pub data FingerprintError : Type 0 where
  needs_64_digits : ℕ → FingerprintError
  not_hexadecimal mismatch : FingerprintError

-- One step of the loop over the pairs of digits.
abbrev pub and_byte :
    Option ℕ → Option ℕ → Result (List ℕ) FingerprintError → Result (List ℕ) FingerprintError
and_byte (some high) (some low) (ok bytes) = ok ((high * 16 + low) ∷ bytes)
and_byte (some high) (some low) (err e) = err e
and_byte _ _ _ = err not_hexadecimal

-- The loop over `chunks_exact(2)`.
unfoldable pub parse_pairs : List ℕ → Result (List ℕ) FingerprintError
parse_pairs [] = ok []
parse_pairs (c ∷ []) = ok []
parse_pairs (c ∷ d ∷ rest) = and_byte (hex_nibble c) (hex_nibble d) (parse_pairs rest)

abbrev pub compact : List ℕ → List ℕ
compact input = filter_by (λ c. not (is_separator c)) input

unfoldable pub parse_fingerprint : List ℕ → Result (List ℕ) FingerprintError
parse_fingerprint input =
    let bytes = utf8 (compact input) in
    if length bytes == 64 then parse_pairs bytes else err (needs_64_digits (length bytes))

-- `FingerprintVerifier::verify_server_cert`: the hash of the certificate is the pinned one.
unfoldable pub verify_server_cert :
    (List ℕ → List ℕ) → List ℕ → List ℕ → Result (Unit {0}) FingerprintError
verify_server_cert sha256 expected certificate =
    if text_eq (sha256 certificate) expected then ok tt else err mismatch

-- A number in decimal, of at most `fuel` digits.
unfoldable pub decimal : ℕ → ℕ → List ℕ
decimal zero n = []
decimal (suc fuel) n =
    let front = decimal fuel (n / 10) in
    if ltb n 10 then (b'0' + n) ∷ [] else front ++ (b'0' + n % 10) ∷ []

abbrev pub hex_text : List ℕ → List ℕ
hex_text [] = []
hex_text (byte ∷ bytes) = hex_digit (byte / 16) ∷ hex_digit (byte % 16) ∷ hex_text bytes

-- The four numbers of an `Ipv4Addr`, in decimal.
abbrev pub host_text : ℕ × ℕ × ℕ × ℕ → List ℕ
host_text (a, b, c, d) =
    decimal 3 a ++ (b'.' ∷ (decimal 3 b ++ (b'.' ∷ (decimal 3 c ++ (b'.' ∷ decimal 3 d)))))

-- "soundwave://pair/v1?host=", "&port=" and "&fp="
abbrev pub link_head : List ℕ
link_head =
    b's' ∷ b'o' ∷ b'u' ∷ b'n' ∷ b'd' ∷ b'w' ∷ b'a' ∷ b'v' ∷ b'e' ∷ b':' ∷ b'/' ∷ b'/' ∷ b'p' ∷ b'a'
    ∷ b'i' ∷ b'r' ∷ b'/' ∷ b'v' ∷ b'1' ∷ b'?' ∷ b'h' ∷ b'o' ∷ b's' ∷ b't' ∷ b'=' ∷ []

abbrev pub port_key : List ℕ
port_key = b'&' ∷ b'p' ∷ b'o' ∷ b'r' ∷ b't' ∷ b'=' ∷ []

abbrev pub fingerprint_key : List ℕ
fingerprint_key = b'&' ∷ b'f' ∷ b'p' ∷ b'=' ∷ []

unfoldable pub encode_pairing_uri : ℕ × ℕ × ℕ × ℕ → ℕ → List ℕ → List ℕ
encode_pairing_uri host port fingerprint =
    link_head
    ++ (host_text host
        ++ (port_key ++ (decimal 5 port ++ (fingerprint_key ++ hex_text fingerprint))))
