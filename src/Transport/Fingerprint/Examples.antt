-- ===== src/Transport/Fingerprint/Examples.antt =====
-- Fingerprints and a pairing link at concrete values.
use soundwave.Base.{ℕ, ◌≡◌, ◌↔◌, ◌++◌, ◌∷◌, [], List, refl, arith, replicate, length, ok, err}
use soundwave.Transport.Fingerprint.{
  format_fingerprint, parse_fingerprint, verify_server_cert, hex_text, encode_pairing_uri, decimal,
  needs_64_digits,
}
use soundwave.Transport.Fingerprint.RoundTrip.{parse-format_fingerprint, parse_fingerprint_ok}

-- `fingerprint_text_round_trips` and `pairing_uri_is_compact_and_canonical`
abbrev pinned : List ℕ
pinned = replicate 32 171

parse-format_fingerprint_example :
    (parse_fingerprint (format_fingerprint pinned) ≡ ok pinned)
    × ((front : List ℕ) × (encode_pairing_uri (192, 168, 1, 42) 48400 pinned
          ≡ front ++ hex_text pinned)
        × (parse_fingerprint (hex_text pinned) ≡ ok pinned))
parse-format_fingerprint_example =
    parse-format_fingerprint (192, 168, 1, 42) 48400 pinned (omega arith) refl

port_text : decimal 5 48400 ≡ b'4' ∷ b'8' ∷ b'4' ∷ b'0' ∷ b'0' ∷ []
unfolding decimal
port_text = refl

too_short : parse_fingerprint (b'A' ∷ b':' ∷ b'b' ∷ []) ≡ err (needs_64_digits 2)
unfolding parse_fingerprint
too_short = refl

parse_fingerprint_ok_example :
    (length pinned ≡ 32)
    × (parse_fingerprint (format_fingerprint pinned) ≡ ok pinned)
    × ((verify_server_cert (λ c. c) pinned pinned ≡ ok tt) ↔ (pinned ≡ pinned))
parse_fingerprint_ok_example =
    parse_fingerprint_ok (λ c. c) (hex_text pinned) pinned pinned
      parse-format_fingerprint_example.1.2
