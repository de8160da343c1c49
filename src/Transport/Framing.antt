-- ===== src/Transport/Framing.antt =====
-- crates/transport/src/control.rs: messages of the control stream behind their length in two bytes.
-- The encoding of a message, by the crate postcard, and the two ends of a stream of the crate quinn
-- are parameters. What a failed call has written stays written.
pub mod Delivery
mod Examples
use soundwave.Base.{
  ℕ, ◌+◌, ◌*◌, ◌/◌, ◌%◌, ◌^◌, ◌≡◌, ◌≤◌, List, [], ◌∷◌, ◌++◌, take, drop, length, ltb, leb,
  if◌then◌else◌, Result, ok, err,
}
use soundwave.Protocol.Control.{ControlMessage}
use soundwave.Protocol.Packet.{to_be_bytes, from_be_bytes}
use soundwave.Transport.Datagram.{TransportError, quinn, control_message_too_large}

-- `ControlMessage::encode` and `decode`.
pub record Codec : Type 0 where
  pub encode : ControlMessage → Result (List ℕ) (List ℕ)
  pub decode : List ℕ → Result ControlMessage (List ℕ)
  pub decode-encode :
      (m : ControlMessage) (bytes : List ℕ) → encode m ≡ ok bytes → decode bytes ≡ ok m

-- `SendStream`: `write_all` hands all bytes over in order, or fails.
pub record SendStream : Type 1 where
  pub Stream : Type 0
  pub write_all : Stream → List ℕ → Stream × Result (Unit {0}) (List ℕ)
  pub flush : Stream → Stream × Result (Unit {0}) (List ℕ)
  pub written : Stream → List ℕ
  pub written-write_all :
      (s s' : Stream) (b : List ℕ) → write_all s b ≡ (s', ok tt) → written s' ≡ written s ++ b
  pub written-flush : (s s' : Stream) → flush s ≡ (s', ok tt) → written s' ≡ written s

-- `RecvStream`: `read_exact` takes that many bytes, once they have come.
pub record RecvStream : Type 1 where
  pub Stream : Type 0
  pub read_exact : Stream → ℕ → Stream × Result (List ℕ) (List ℕ)
  pub unread : Stream → List ℕ
  pub read_exact_lem :
      (s : Stream) (n : ℕ)
      → n ≤ length (unread s)
      → (s' : Stream) × (read_exact s n ≡ (s', ok (take n (unread s))))
        × (unread s' ≡ drop n (unread s))

abbrev pub max_control_message_bytes : ℕ
max_control_message_bytes = 4 * 1024

-- `map_err(…)?`: the next step, with the stream that this one leaves.
abbrev pub then_on {ℓ} :
    {S : Type ℓ} {A : Type 0} {B : Type 0}
    → S × Result A (List ℕ)
    → (S → A → S × Result B TransportError)
    → S × Result B TransportError
then_on (s, ok a) next = next s a
then_on (s, err text) next = (s, err (quinn text))

module _ (c : Codec) (w : SendStream) where
  -- The last step has no other after it.
  abbrev pub done : w.Stream → Unit {0} → w.Stream × Result (Unit {0}) TransportError
  done s u = (s, ok tt)

  abbrev pub write_framed : w.Stream → List ℕ → w.Stream × Result (Unit {0}) TransportError
  write_framed s encoded =
      then_on (w.write_all s (to_be_bytes 2 (length encoded)))
        λ s1 u. then_on (w.write_all s1 encoded) λ s2 u'. then_on (w.flush s2) done

  -- A length of at most 4096 is one of 16 bits.
  unfoldable pub send_bytes : w.Stream → List ℕ → w.Stream × Result (Unit {0}) TransportError
  send_bytes s encoded =
      if ltb max_control_message_bytes (length encoded)
      then (s, err (control_message_too_large (length encoded) max_control_message_bytes))
      else write_framed s encoded

  unfoldable pub send : w.Stream → ControlMessage → w.Stream × Result (Unit {0}) TransportError
  send s message = then_on (s, c.encode message) send_bytes

module _ (c : Codec) (r : RecvStream) where
  abbrev pub decoded : r.Stream → List ℕ → r.Stream × Result ControlMessage TransportError
  decoded s encoded = then_on (s, c.decode encoded) λ s' message. (s', ok message)

  unfoldable pub receive_length :
      r.Stream → List ℕ → r.Stream × Result ControlMessage TransportError
  receive_length s prefix =
      let n = from_be_bytes prefix in
      if ltb max_control_message_bytes n
      then (s, err (control_message_too_large n max_control_message_bytes))
      else then_on (r.read_exact s n) decoded

  unfoldable pub receive : r.Stream → r.Stream × Result ControlMessage TransportError
  receive s = then_on (r.read_exact s 2) receive_length
