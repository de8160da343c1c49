-- ===== src/Server/Packetizer/Sends.antt =====
-- `send_block`: the numbers of the packets that it hands over, and its counters.
use soundwave.Base.{
  subst, ap, ap₂, sym, refl, ◌∙◌, map, ◌⊎◌, if◌then◌else◌, ℕ, ◌≡◌, arith, ◌+◌, ◌%◌, ◌^◌, ◌<◌, List,
  [], ◌∷◌, ◌++◌, Bool, true, false, Option, none, some, length, Bool-cases, inl, inr, length-append,
  Result, ok, err,
}
use soundwave.Protocol.Packet.{AudioPacket, BytesMut}
use soundwave.Transport.Datagram.{
  send, TransportError, Connection, quinn, datagram_unsupported, datagram_too_large,
  control_message_too_large, certificate,
}
use soundwave.Server.Packetizer.{
  Packetizer, PcmBlock, StreamCounters, Sending, le_payload, for_each_packet, sent_packet,
  send_packet, send_block,
}
use soundwave.Server.Packetizer.Stream.{Log, collect}
use soundwave.Server.Packetizer.Lockstep.{After, for_each-Ends}

-- The packets are numbered from `n` on, modulo 2 ^ 32.
abbrev pub IsNumbered : ℕ → List AudioPacket → Type 0
IsNumbered n [] = Unit
IsNumbered n (p ∷ ps) = (p.sequence ≡ n) × IsNumbered ((n + 1) % 2 ^ 32) ps

-- Not the loss of one packet in a full local queue.
abbrev pub EndsStream : Option TransportError → Type 0
EndsStream none = Unit
EndsStream (some (quinn text)) = ⊥
EndsStream (some _) = Unit

IsNumbered-append :
    (n : ℕ) (ps : List AudioPacket) (p : AudioPacket)
    → n < 2 ^ 32
    → IsNumbered n ps
    → p.sequence ≡ (n + length ps) % 2 ^ 32
    → IsNumbered n (ps ++ p ∷ [])
IsNumbered-append n [] p w h e = (omega arith, tt)
IsNumbered-append n (q ∷ ps) p w h e =
    (h.0, IsNumbered-append ((n + 1) % 2 ^ 32) ps p (omega arith) h.1 (omega arith))

abbrev pub is_taken : Result (Unit {0}) TransportError → Bool
is_taken (ok u) = true
is_taken (err e) = false

abbrev pub is_refused : Result (Unit {0}) TransportError → Bool
is_refused (ok u) = false
is_refused (err (quinn text)) = true
is_refused (err _) = false

-- How many packets pass the test, which also gets the number of each, from `k` on.
abbrev pub count_from : (ℕ → AudioPacket → Bool) → ℕ → List AudioPacket → ℕ
count_from test k [] = 0
count_from test k (p ∷ ps) = (if test k p then 1 else 0) + count_from test (k + 1) ps

count_from-append :
    (test : ℕ → AudioPacket → Bool) (k n : ℕ) (ps : List AudioPacket) (p : AudioPacket)
    → n ≡ k + length ps
    → count_from test k (ps ++ p ∷ []) ≡ count_from test k ps + (if test n p then 1 else 0)
count_from-append test k n [] p h = let same : n ≡ k = omega arith in rw same (omega arith)
count_from-append test k n (q ∷ ps) p h =
    omega (arith, count_from-append test (k + 1) n ps p (omega arith))

-- The frame of a packet, and of what the packetizer calls back with.
abbrev pub frame : AudioPacket → ℕ × List ℕ
frame p = (p.timestamp, p.payload)

abbrev pub frame_of : ℕ × List ℕ → ℕ × List ℕ
frame_of e = (e.0, le_payload e.1)

map-append :
    {A B : Type 0} (f : A → B) (xs : List A) (x : A) → map f (xs ++ x ∷ []) ≡ map f xs ++ f x ∷ []
map-append f [] x = refl
map-append f (y ∷ xs) x = ap (◌∷◌ (f y)) (map-append f xs x)

module _ (m : BytesMut) (world : ℕ → Bool × Connection) where
  -- What the sender makes of packet number `k` of the block.
  abbrev pub taken_at : ℕ → AudioPacket → Bool
  taken_at k p = is_taken (send m (world k).1 p)

  abbrev pub refused_at : ℕ → AudioPacket → Bool
  refused_at k p = is_refused (send m (world k).1 p)

  module _ (n : ℕ) (word : n < 2 ^ 32) (before : StreamCounters) where
    -- What holds of the callback's state after any number of calls that began at number `n`.
    record Handed (s : Sending) : Type 0 where
      numbered : IsNumbered n s.attempted
      sequence : s.sequence ≡ (n + length s.attempted) % 2 ^ 32
      sent :
          s.counters.packets_sent % 2 ^ 64
          ≡ (before.packets_sent + count_from taken_at 0 s.attempted) % 2 ^ 64
      dropped :
          s.counters.packets_dropped % 2 ^ 64
          ≡ (before.packets_dropped + count_from refused_at 0 s.attempted) % 2 ^ 64

    -- While the callback goes on.
    record Going (s : Sending) (log : Log) : Type 0 where
      handed : Handed s
      looks : s.looks ≡ length s.attempted
      frames : map frame s.attempted ≡ map frame_of log
      fine : s.send_error ≡ none

    -- Where it has stopped: the gate was shut, or there was an error that ends the stream.
    abbrev Stopped : Sending → Type 0
    Stopped s =
        Handed s
        × (((s.send_error ≡ none) × ((world (length s.attempted)).0 ≡ false))
            ⊎ ((e : TransportError) × (s.send_error ≡ some e) × EndsStream (some e)))

    module _ (s : Sending) (p : AudioPacket) (log : Log) (t : ℕ) (l : List ℕ) (g : Going s log)
        (framed : frame p ≡ frame_of (t, l)) (numbered : p.sequence ≡ s.sequence) where
      abbrev numbered_at : Sending
      numbered_at = record s {
        looks = s.looks + 1;
        sequence = (s.sequence + 1) % 2 ^ 32;
        attempted = s.attempted ++ p ∷ [];
      }

      Handed-with :
          (c : StreamCounters)
          → c.packets_sent % 2 ^ 64
            ≡ (s.counters.packets_sent + (if taken_at s.looks p then 1 else 0)) % 2 ^ 64
          → c.packets_dropped % 2 ^ 64
            ≡ (s.counters.packets_dropped + (if refused_at s.looks p then 1 else 0)) % 2 ^ 64
          → (e : Option TransportError)
          → Handed (record numbered_at { counters = c; send_error = e })
      Handed-with c more_sent more_dropped e = record {
        numbered =
            IsNumbered-append n s.attempted p word g.handed.numbered (numbered ∙ g.handed.sequence);
        sequence = omega (arith, length-append {0} s.attempted (p ∷ []), g.handed.sequence);
        sent = omega (
          arith,
          more_sent,
          g.handed.sent,
          count_from-append taken_at 0 s.looks s.attempted p (omega (arith, g.looks)),
        );
        dropped = omega (
          arith,
          more_dropped,
          g.handed.dropped,
          count_from-append refused_at 0 s.looks s.attempted p (omega (arith, g.looks)),
        );
      }

      Going-with :
          (c : StreamCounters)
          → Handed (record numbered_at { counters = c; send_error = s.send_error })
          → Going (record numbered_at { counters = c }) (log ++ (t, l) ∷ [])
      Going-with c h = record {
        handed = h;
        looks = omega (arith, length-append {0} s.attempted (p ∷ []), g.looks);
        frames =
            map-append frame s.attempted p
            ∙ ap₂ (λ (xs : List (ℕ × List ℕ)) (x : ℕ × List ℕ). xs ++ x ∷ []) g.frames framed
            ∙ sym (map-append frame_of log (t, l));
        fine = g.fine;
      }

      sent_packet-After :
          (r : Result (Unit {0}) TransportError)
          → send m (world s.looks).1 p ≡ r
          → After Going Stopped (sent_packet numbered_at r) (log ++ (t, l) ∷ [])
      unfolding sent_packet
      sent_packet-After (ok u) is =
          Going-with _ (Handed-with _ (rw is (omega arith)) (rw is (omega arith)) s.send_error)
      sent_packet-After (err (quinn text)) is =
          Going-with _ (Handed-with _ (rw is (omega arith)) (rw is (omega arith)) s.send_error)
      sent_packet-After (err (control_message_too_large a b)) is = (
        Handed-with s.counters (rw is (omega arith)) (rw is (omega arith)) _,
        inr (control_message_too_large a b, refl, tt),
      )
      sent_packet-After (err datagram_unsupported) is = (
        Handed-with s.counters (rw is (omega arith)) (rw is (omega arith)) _,
        inr (datagram_unsupported, refl, tt),
      )
      sent_packet-After (err (datagram_too_large a b)) is = (
        Handed-with s.counters (rw is (omega arith)) (rw is (omega arith)) _,
        inr (datagram_too_large a b, refl, tt),
      )
      sent_packet-After (err (certificate text)) is = (
        Handed-with s.counters (rw is (omega arith)) (rw is (omega arith)) _,
        inr (certificate text, refl, tt),
      )

    send_packet-After :
        (s : Sending) (log : Log) (t : ℕ) (l : List ℕ)
        → Going s log
        → After Going Stopped (send_packet m world s t l) (log ++ (t, l) ∷ [])
    unfolding send_packet
    send_packet-After s log t l g = elim (Bool-cases (world s.looks).0) [
      | inr shut ↦ rw shut (
        record {
          numbered = g.handed.numbered;
          sequence = g.handed.sequence;
          sent = g.handed.sent;
          dropped = g.handed.dropped;
        },
        inl (g.fine, subst (λ (k : ℕ). (world k).0 ≡ false) g.looks shut),
      )
      | inl is_open ↦
          let p : AudioPacket = record {
            sequence = s.sequence;
            timestamp = t;
            payload = le_payload l;
          } in
          rw is_open (sent_packet-After s p log t l g refl refl (send m (world s.looks).1 p) refl)
    ]

  -- How `send_block` ends, when `handed` is the number of packets that it hands over: with no error,
  -- having handed over every frame of the block or finding the gate shut at its next look, or with
  -- an error other than `Quinn`.
  abbrev pub EndsWith : Bool → List (ℕ × List ℕ) → List AudioPacket → Option TransportError → Type 0
  EndsWith gate_open frames packets error =
      ((error ≡ none) × (map frame packets ≡ map frame_of frames))
      ⊎ (((error ≡ none) × ((gate_open ≡ false) ⊎ ((world (length packets)).0 ≡ false)))
          ⊎ ((e : TransportError) × (error ≡ some e) × EndsStream (some e)))

  -- The packets that `send_block` hands to the sender carry consecutive sequence numbers from the
  -- packetizer's own on, modulo 2 ^ 32, whatever the gate and the connection do in between, and the
  -- packetizer goes on with the number after the last one. Each packet that the sender takes is
  -- counted as sent and each that quinn refuses as dropped, modulo 2 ^ 64. A packet that quinn refuses
  -- does not end the block: all frames that the packetizer cuts from the block are handed over, in
  -- order and with their timestamps and samples, unless the gate is found shut before the block or
  -- before the next frame, or an error other than `Quinn` is returned.
  pub send_block-IsNumbered :
      (gate_open : Bool) (p : Packetizer) (block : PcmBlock) (counters : StreamCounters)
      → p.sequence < 2 ^ 32
      → let (p', counters', packets, error) = send_block m world gate_open p block counters in
        IsNumbered p.sequence packets
        × (p'.sequence ≡ (p.sequence + length packets) % 2 ^ 32)
        × (counters'.packets_sent % 2 ^ 64
            ≡ (counters.packets_sent + count_from taken_at 0 packets) % 2 ^ 64)
        × (counters'.packets_dropped % 2 ^ 64
            ≡ (counters.packets_dropped + count_from refused_at 0 packets) % 2 ^ 64)
        × EndsWith gate_open (for_each_packet collect p block []).0 packets error
  unfolding send_block
  send_block-IsNumbered false p block counters w =
      (tt, omega arith, omega arith, omega arith, inr (inl (refl, inl refl)))
  send_block-IsNumbered true p block counters w =
      let start : Sending = record {
        sequence = p.sequence;
        send_error = none;
        counters = counters;
        attempted = [];
        looks = 0;
      } in
      let going : Going p.sequence w counters start [] = record {
        handed = record {
          numbered = tt;
          sequence = omega arith;
          sent = omega arith;
          dropped = omega arith;
        };
        looks = refl;
        frames = refl;
        fine = refl;
      } in
      elim (for_each-Ends (Going p.sequence w counters) (Stopped p.sequence w counters)
        (send_packet m world) (send_packet-After p.sequence w counters) p block start [] going) [
          | inl g ↦ (
            g.handed.numbered,
            g.handed.sequence,
            g.handed.sent,
            g.handed.dropped,
            inl (g.fine, g.frames),
          )
          | inr (h, inl (fine, shut)) ↦
              (h.numbered, h.sequence, h.sent, h.dropped, inr (inl (fine, inr shut)))
          | inr (h, inr stopped) ↦ (h.numbered, h.sequence, h.sent, h.dropped, inr (inr stopped))
        ]
