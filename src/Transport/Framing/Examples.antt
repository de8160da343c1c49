-- ===== src/Transport/Framing/Examples.antt =====
-- Messages over streams that are lists of bytes.
use soundwave.Base.{
  ℕ, ◌≡◌, ◌≤◌, refl, ap, sym, arith, List, [], ◌∷◌, ◌++◌, take, drop, length, replicate,
  length-replicate, leb, le→leb, ◌==◌, if◌then◌else◌, Result, ok, err,
}
use soundwave.Protocol.Control.{
  ControlMessage, hello, start, stop, stream_info, adjust_volume, audio_idle, query_device,
  set_volume, device_status, calibration_tone, tone_state, calibration_session,
}
use soundwave.Protocol.Packet.{to_be_bytes}
use soundwave.Transport.Datagram.{control_message_too_large}
use soundwave.Transport.Framing.{Codec, SendStream, RecvStream, send_bytes, send, receive}
use soundwave.Transport.Framing.Delivery.{
  send_all, receive_all, receive_all-send_all, too_large_refused,
}

-- A code for three kinds of messages.
abbrev code : ControlMessage → Result (List ℕ) (List ℕ)
code start = ok (1 ∷ [])
code stop = ok (2 ∷ [])
code (hello n) = ok (3 ∷ replicate n 0)
code _ = err []

abbrev decode : List ℕ → Result ControlMessage (List ℕ)
decode [] = err []
decode (tag ∷ rest) =
    if tag == 1 then ok start else if tag == 2 then ok stop else ok (hello (length rest))

decode-code : (m : ControlMessage) (bytes : List ℕ) → code m ≡ ok bytes → decode bytes ≡ ok m
decode-code start bytes h = ground arith
decode-code stop bytes h = ground arith
decode-code (hello n) bytes h = ground (arith, length-replicate {A = ℕ} n 0)
decode-code (stream_info i) bytes h = absurd (ground arith)
decode-code (adjust_volume i) bytes h = absurd (ground arith)
decode-code (audio_idle i) bytes h = absurd (ground arith)
decode-code (query_device i) bytes h = absurd (ground arith)
decode-code (set_volume i j k) bytes h = absurd (ground arith)
decode-code (device_status i) bytes h = absurd (ground arith)
decode-code (calibration_tone i j) bytes h = absurd (ground arith)
decode-code (tone_state i j k) bytes h = absurd (ground arith)
decode-code (calibration_session i j) bytes h = absurd (ground arith)

abbrev codec : Codec
codec = record { encode = code; decode = decode; decode-encode = decode-code }

abbrev outgoing : SendStream
outgoing = record {
  Stream = List ℕ;
  write_all = λ s b. (s ++ b, ok tt);
  flush = λ s. (s, ok tt);
  written = λ s. s;
  written-write_all = λ s s' b h. ap (λ q. q.0) (sym h);
  written-flush = λ s s' h. ap (λ q. q.0) (sym h);
}

abbrev take_exact : List ℕ → ℕ → List ℕ × Result (List ℕ) (List ℕ)
take_exact s n = if leb n (length s) then (drop n s, ok (take n s)) else ([], err [])

take_exact_lem :
    (s : List ℕ) (n : ℕ)
    → n ≤ length s
    → (s' : List ℕ) × (take_exact s n ≡ (s', ok (take n s))) × (s' ≡ drop n s)
take_exact_lem s n h = (drop n s, rw (le→leb n (length s) h) refl, refl)

abbrev incoming : RecvStream
incoming = record {
  Stream = List ℕ;
  read_exact = take_exact;
  unread = λ s. s;
  read_exact_lem = take_exact_lem;
}

-- Two messages and a byte of the next.
abbrev wire : List ℕ
wire = 0 ∷ 1 ∷ 1 ∷ 0 ∷ 3 ∷ 3 ∷ 0 ∷ 0 ∷ []

two_sent : send_all codec outgoing (9 ∷ []) (start ∷ hello 2 ∷ []) ≡ (9 ∷ wire, ok tt)
unfolding send send_bytes to_be_bytes
two_sent = refl

receive_all-send_all_example :
    (t' : List ℕ) × (receive_all codec incoming 2 (wire ++ 7 ∷ [])
      ≡ (t', ok (start ∷ hello 2 ∷ [])))
    × (t' ≡ 7 ∷ [])
receive_all-send_all_example =
    receive_all-send_all codec outgoing incoming (9 ∷ []) (9 ∷ wire) (wire ++ 7 ∷ [])
      (start ∷ hello 2 ∷ []) (7 ∷ []) two_sent refl

abbrev large : List ℕ
large = 3 ∷ replicate 4096 0

too_large_refused_example :
    (send codec outgoing [] (hello 4096)
      ≡ ([], err (control_message_too_large (length large) 4096)))
    × ((t' : List ℕ) × (receive codec incoming (to_be_bytes 2 5000 ++ 7 ∷ [])
          ≡ (t', err (control_message_too_large 5000 4096)))
        × (t' ≡ 7 ∷ []))
too_large_refused_example =
    too_large_refused codec outgoing incoming [] (to_be_bytes 2 5000 ++ 7 ∷ []) (hello 4096) large
      (7 ∷ []) 5000 refl (omega (arith, length-replicate {A = ℕ} 4096 0)) (omega arith)
      (omega arith) refl
