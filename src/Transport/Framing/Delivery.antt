-- ===== src/Transport/Framing/Delivery.antt =====
-- crates/transport/src/control.rs: sending and receiving together.
use soundwave.Base.{
  ℕ, zero, suc, ◌^◌, ◌≡◌, ◌≤◌, ◌<◌, refl, ap, sym, ◌∙◌, arith, List, [], ◌∷◌, ◌++◌, Bool,
  append_assoc, append-nil, true, false, take, drop, length, length-append, take-append,
  drop-append, ltb, if◌then◌else◌, Result, ok, err, lt→ltb, le→ltb, ltb→le,
}
use soundwave.Protocol.Control.{ControlMessage}
use soundwave.Protocol.Packet.{to_be_bytes, from_be_bytes}
use soundwave.Protocol.Packet.Wire.{length-to_be_bytes, from_be_bytes-to_be_bytes}
use soundwave.Transport.Datagram.{TransportError, control_message_too_large}
use soundwave.Transport.Framing.{
  Codec, SendStream, RecvStream, then_on, done, write_framed, send_bytes, send, receive_length,
  receive,
}

-- A step that has succeeded came before those that succeed after it.
then_on-ok {ℓ} :
    {S : Type ℓ} {A : Type 0} {B : Type 0} (m : S × Result A (List ℕ))
    (next : S → A → S × Result B TransportError) (s' : S) (b : B)
    → then_on m next ≡ (s', ok b)
    → (s : S) × (a : A) × (m ≡ (s, ok a)) × (next s a ≡ (s', ok b))
then_on-ok (s, ok a) next s' b h = (s, a, refl, h)
then_on-ok (s, err text) next s' b h = absurd (ground arith)

-- The bytes of a message behind their length.
abbrev pub framed : List ℕ → List ℕ
framed bytes = to_be_bytes 2 (length bytes) ++ bytes

-- A guard that was passed.
passed_guard {ℓ} :
    {S : Type ℓ} {B : Type 0} (refused : Bool) (s s' : S) (e : TransportError) (b : B)
    (x : S × Result B TransportError)
    → (if refused then (s, err e) else x) ≡ (s', ok b)
    → (refused ≡ false) × (x ≡ (s', ok b))
passed_guard true s s' e b x h = absurd (ground arith)
passed_guard false s s' e b x h = (refl, h)

done-ok :
    (c : Codec) (w : SendStream) (s s' : w.Stream) (u : Unit {0})
    → done c w s u ≡ (s', ok tt)
    → s ≡ s'
done-ok c w s s' u h = ap (λ q. q.0) h

module _ (c : Codec) (w : SendStream) where
  write_framed-written :
      (s s' : w.Stream) (bytes : List ℕ)
      → write_framed c w s bytes ≡ (s', ok tt)
      → w.written s' ≡ w.written s ++ framed bytes
  write_framed-written s s' bytes h =
      let (s1, u1, first, h1) =
        then_on-ok (w.write_all s (to_be_bytes 2 (length bytes))) _ s' tt h in
      let (s2, u2, second, h2) = then_on-ok (w.write_all s1 bytes) _ s' tt h1 in
      let (s3, u3, flushed, h3) = then_on-ok (w.flush s2) (done c w) s' tt h2 in
      ap w.written (sym (done-ok c w s3 s' u3 h3))
      ∙ w.written-flush s2 s3 flushed
      ∙ w.written-write_all s1 s2 bytes second
      ∙ ap (λ l. l ++ bytes) (w.written-write_all s s1 (to_be_bytes 2 (length bytes)) first)
      ∙ append_assoc (w.written s) (to_be_bytes 2 (length bytes)) bytes

  send_bytes-written :
      (s s' : w.Stream) (bytes : List ℕ)
      → send_bytes c w s bytes ≡ (s', ok tt)
      → (length bytes ≤ 4096) × (w.written s' ≡ w.written s ++ framed bytes)
  unfolding send_bytes
  send_bytes-written s s' bytes h =
      let (fits, sent) =
        passed_guard (ltb 4096 (length bytes)) s s' (control_message_too_large (length bytes) 4096)
          tt (write_framed c w s bytes) h in
      (ltb→le 4096 (length bytes) fits, write_framed-written s s' bytes sent)

  send-written :
      (s s' : w.Stream) (m : ControlMessage)
      → send c w s m ≡ (s', ok tt)
      → (bytes : List ℕ) × (c.encode m ≡ ok bytes)
        × (length bytes ≤ 4096)
        × (w.written s' ≡ w.written s ++ framed bytes)
  unfolding send
  send-written s s' m h =
      let (s1, bytes, e, rest) = then_on-ok (s, c.encode m) (send_bytes c w) s' tt h in
      let (fits, written) = send_bytes-written s1 s' bytes rest in
      (bytes, ap (λ q. q.1) e, fits, written ∙ ap (λ q. w.written q.0 ++ framed bytes) (sym e))

module _ (c : Codec) (r : RecvStream) where
  read_front :
      (t : r.Stream) (front rest : List ℕ)
      → r.unread t ≡ front ++ rest
      → (t' : r.Stream) × (r.read_exact t (length front) ≡ (t', ok front)) × (r.unread t' ≡ rest)
  read_front t front rest e =
      let (t', read, left) =
        r.read_exact_lem t (length front) (omega (arith, ap length e, length-append front rest)) in
      (
        t',
        read ∙ ap (λ l. (t', ok l)) (ap (take (length front)) e ∙ take-append front rest),
        left ∙ ap (drop (length front)) e ∙ drop-append front rest,
      )

  -- The length comes first.
  receive_head :
      (t : r.Stream) (n : ℕ) (rest : List ℕ)
      → n < 2 ^ 16
      → r.unread t ≡ to_be_bytes 2 n ++ rest
      → (t' : r.Stream) × (receive c r t ≡ receive_length c r t' (to_be_bytes 2 n))
        × (r.unread t' ≡ rest)
        × (from_be_bytes (to_be_bytes 2 n) ≡ n)
  unfolding receive
  receive_head t n rest word e =
      let (t', read, left) = read_front t (to_be_bytes 2 n) rest e in
      let two = length-to_be_bytes 2 n in
      (
        t',
        ap (λ q. then_on q (receive_length c r)) (ap (r.read_exact t) (sym two) ∙ read),
        left,
        from_be_bytes-to_be_bytes 2 n word,
      )

  receive-framed :
      (t : r.Stream) (m : ControlMessage) (bytes rest : List ℕ)
      → c.encode m ≡ ok bytes
      → length bytes ≤ 4096
      → r.unread t ≡ framed bytes ++ rest
      → (t' : r.Stream) × (receive c r t ≡ (t', ok m)) × (r.unread t' ≡ rest)
  unfolding receive_length
  receive-framed t m bytes rest e fits u =
      let (t1, headed, left, n) =
        receive_head t (length bytes) (bytes ++ rest) (omega arith)
          (u ∙ append_assoc (to_be_bytes 2 (length bytes)) bytes rest) in
      let (t2, read, left') = read_front t1 bytes rest left in
      (
        t2,
        headed ∙ rw (n, le→ltb 4096 (length bytes) fits, read, c.decode-encode m bytes e) refl,
        left',
      )

-- The next call, after one that succeeded.
abbrev pub and_then_send {ℓ} :
    {S : Type ℓ}
    → S × Result (Unit {0}) TransportError
    → (S → S × Result (Unit {0}) TransportError)
    → S × Result (Unit {0}) TransportError
and_then_send (s, ok u) next = next s
and_then_send (s, err e) next = (s, err e)

abbrev pub prepend {ℓ} :
    {S : Type ℓ}
    → ControlMessage
    → S × Result (List ControlMessage) TransportError
    → S × Result (List ControlMessage) TransportError
prepend m (s, ok ms) = (s, ok (m ∷ ms))
prepend m (s, err e) = (s, err e)

abbrev pub and_then_receive {ℓ} :
    {S : Type ℓ}
    → S × Result ControlMessage TransportError
    → (S → S × Result (List ControlMessage) TransportError)
    → S × Result (List ControlMessage) TransportError
and_then_receive (s, ok m) next = prepend m (next s)
and_then_receive (s, err e) next = (s, err e)

-- Several messages, up to the first that fails.
abbrev pub send_all :
    (c : Codec) (w : SendStream)
    → w.Stream
    → List ControlMessage
    → w.Stream × Result (Unit {0}) TransportError
send_all c w s [] = (s, ok tt)
send_all c w s (m ∷ ms) = and_then_send (send c w s m) λ s'. send_all c w s' ms

abbrev pub receive_all :
    (c : Codec) (r : RecvStream)
    → ℕ
    → r.Stream
    → r.Stream × Result (List ControlMessage) TransportError
receive_all c r zero t = (t, ok [])
receive_all c r (suc n) t = and_then_receive (receive c r t) λ t'. receive_all c r n t'

-- These bytes are the messages, each behind its length.
abbrev Encodes : Codec → List ControlMessage → List ℕ → Type 0
Encodes c [] wire = wire ≡ []
Encodes c (m ∷ ms) wire =
    (bytes : List ℕ) × (rest : List ℕ) × (c.encode m ≡ ok bytes)
    × (length bytes ≤ 4096)
    × (wire ≡ framed bytes ++ rest)
    × Encodes c ms rest

and_then_send-ok {ℓ} :
    {S : Type ℓ} (m : S × Result (Unit {0}) TransportError)
    (next : S → S × Result (Unit {0}) TransportError) (s' : S)
    → and_then_send m next ≡ (s', ok tt)
    → (s : S) × (m ≡ (s, ok tt)) × (next s ≡ (s', ok tt))
and_then_send-ok (s, ok u) next s' h = (s, refl, h)
and_then_send-ok (s, err e) next s' h = absurd (ground arith)

send_all-Encodes :
    (c : Codec) (w : SendStream) (s s' : w.Stream) (ms : List ControlMessage)
    → send_all c w s ms ≡ (s', ok tt)
    → (wire : List ℕ) × (w.written s' ≡ w.written s ++ wire) × Encodes c ms wire
send_all-Encodes c w s s' [] h =
    ([], ap (λ q. w.written q.0) (sym h) ∙ sym (append-nil (w.written s)), refl)
send_all-Encodes c w s s' (m ∷ ms) h =
    let (s1, first, later) = and_then_send-ok (send c w s m) (λ s1. send_all c w s1 ms) s' h in
    let (bytes, e, fits, written) = send-written c w s s1 m first in
    let (rest, more, encoded) = send_all-Encodes c w s1 s' ms later in
    (
      framed bytes ++ rest,
      more ∙ ap (λ l. l ++ rest) written ∙ append_assoc (w.written s) (framed bytes) rest,
      (bytes, rest, e, fits, refl, encoded),
    )

receive_all-Encodes :
    (c : Codec) (r : RecvStream) (t : r.Stream) (ms : List ControlMessage) (wire rest : List ℕ)
    → Encodes c ms wire
    → r.unread t ≡ wire ++ rest
    → (t' : r.Stream) × (receive_all c r (length ms) t ≡ (t', ok ms)) × (r.unread t' ≡ rest)
receive_all-Encodes c r t [] wire rest h u = (t, refl, u ∙ ap (λ l. l ++ rest) h)
receive_all-Encodes c r t (m ∷ ms) wire rest (bytes, more, e, fits, whole, h) u =
    let (t1, received, left) =
      receive-framed c r t m bytes (more ++ rest) e fits
        (u ∙ ap (λ l. l ++ rest) whole ∙ append_assoc (framed bytes) more rest) in
    let (t2, all, left') = receive_all-Encodes c r t1 ms more rest h left in
    (t2, rw (received, all) refl, left')

-- Messages that have all been sent arrive all, in their order and unchanged, and nothing more is
-- read, when the receiving end gets the bytes that the sending end has written since, and any
-- bytes behind them.
pub receive_all-send_all :
    (c : Codec) (w : SendStream) (r : RecvStream) (s s' : w.Stream) (t : r.Stream)
    (ms : List ControlMessage) (rest : List ℕ)
    → send_all c w s ms ≡ (s', ok tt)
    → r.unread t ≡ drop (length (w.written s)) (w.written s') ++ rest
    → (t' : r.Stream) × (receive_all c r (length ms) t ≡ (t', ok ms)) × (r.unread t' ≡ rest)
receive_all-send_all c w r s s' t ms rest h u =
    let (wire, written, encoded) = send_all-Encodes c w s s' ms h in
    let new : drop (length (w.written s)) (w.written s') ≡ wire =
      ap (drop (length (w.written s))) written ∙ drop-append (w.written s) wire in
    receive_all-Encodes c r t ms wire rest encoded (u ∙ ap (λ l. l ++ rest) new)

-- A message whose encoding is longer than 4096 bytes is refused and nothing is written, and a
-- length above 4096 is refused by the receiver, which has then read its two bytes alone.
pub too_large_refused :
    (c : Codec) (w : SendStream) (r : RecvStream) (s : w.Stream) (t : r.Stream) (m : ControlMessage)
    (bytes rest : List ℕ) (n : ℕ)
    → c.encode m ≡ ok bytes
    → 4096 < length bytes
    → 4096 < n
    → n < 2 ^ 16
    → r.unread t ≡ to_be_bytes 2 n ++ rest
    → (send c w s m ≡ (s, err (control_message_too_large (length bytes) 4096)))
      × ((t' : r.Stream) × (receive c r t ≡ (t', err (control_message_too_large n 4096)))
          × (r.unread t' ≡ rest))
unfolding send send_bytes receive_length
too_large_refused c w r s t m bytes rest n e long above word u =
    let (t', headed, left, same) = receive_head c r t n rest word u in
    (
      rw (e, lt→ltb 4096 (length bytes) long) refl,
      (t', headed ∙ rw (same, lt→ltb 4096 n above) refl, left),
    )
