-- ===== src/Server/Packetizer.antt =====
-- The packetizer of windows-server/src/network/server.rs: blocks of 960 samples are cut into packets
-- of one duration. A sample is its 16-bit pattern. A callback is a function on a state `S` of its
-- own that says whether to go on. The timestamps within a block are exact numbers, where the source
-- adds in 64 bits, and a tail is a list of any length, where the source has an array of 192 samples
-- and panics on another length; blocks of 960 samples leave no other tail.
pub mod Duration
pub mod Stream
mod Lockstep
pub mod Sends
mod Examples
use soundwave.Base.{
  ℕ, zero, suc, ◌+◌, ◌-◌, ◌*◌, ◌/◌, ◌%◌, ◌^◌, List, [], ◌∷◌, ◌++◌, Bool, true, false, not, Option,
  none, some, length, take, drop, ltb, leb, ◌==◌, if◌then◌else◌, Result, ok, err,
}
use soundwave.Base.Words.{wrapping_add32, wrapping_add64}
use soundwave.Protocol.Packet.{AudioPacket, BytesMut}
use soundwave.Transport.Datagram.{
  TransportError, Connection, send, quinn, datagram_unsupported, datagram_too_large,
  control_message_too_large, certificate,
}

-- Samples of both channels in a packet of `frame_duration_ms`.
abbrev pub samples_per_packet : ℕ → ℕ
samples_per_packet frame_duration_ms = 48000 * frame_duration_ms / 1000 * 2

-- `PcmBlock::SAMPLE_COUNT`
abbrev pub sample_count : ℕ
sample_count = 48000 * 2 / 100

abbrev pub four_ms_packet_samples : ℕ
four_ms_packet_samples = samples_per_packet 4

abbrev pub four_ms_tail_samples : ℕ
four_ms_tail_samples = sample_count % four_ms_packet_samples

-- The loop over the durations; the error is the number of bytes that QUIC permits.
unfoldable pub first_fitting : List ℕ → ℕ → Result ℕ ℕ
first_fitting [] max_payload_bytes = err max_payload_bytes
first_fitting (duration_ms ∷ durations) max_payload_bytes =
    if leb (samples_per_packet duration_ms * 2) max_payload_bytes
    then ok duration_ms
    else first_fitting durations max_payload_bytes

unfoldable pub choose_packet_duration_ms : ℕ → Result ℕ ℕ
unfolding first_fitting
choose_packet_duration_ms = first_fitting (10 ∷ 5 ∷ 4 ∷ 2 ∷ 1 ∷ [])

pub record PcmBlock : Type 0 where
  pub timestamp : ℕ
  pub samples : List ℕ

pub record PendingTail : Type 0 where
  pub timestamp : ℕ
  pub samples : List ℕ

pub record Packetizer : Type 0 where
  pub sequence : ℕ
  pub frame_duration_ms : ℕ
  pub samples_per_packet : ℕ
  pub pending_tail : Option PendingTail

unfoldable pub new : ℕ → Packetizer
new frame_duration_ms = record {
  sequence = 0;
  frame_duration_ms = frame_duration_ms;
  samples_per_packet = samples_per_packet frame_duration_ms;
  pending_tail = none;
}

-- The samples of a tail and of the block behind it that make one packet.
abbrev pub joined : PendingTail → PcmBlock → List ℕ
joined tail block =
    tail.samples ++ take (four_ms_packet_samples - four_ms_tail_samples) block.samples

module _ {S : Type 0} (callback : S → ℕ → List ℕ → S × Bool) where
  -- `block.samples.chunks(n)` with the index of the chunk; the list is what is left of the samples,
  -- and the fuel is at least their number.
  unfoldable pub for_each_chunk : ℕ → PcmBlock → ℕ → ℕ → List ℕ → S → S
  for_each_chunk zero block n index rest s = s
  for_each_chunk (suc fuel) block n index [] s = s
  for_each_chunk (suc fuel) block n index (x ∷ rest) s =
      let (s', go_on) = callback s (block.timestamp + index * n / 2) (take n (x ∷ rest)) in
      elim go_on [
        | true ↦ for_each_chunk fuel block n (index + 1) (drop n (x ∷ rest)) s'
        | false ↦ s'
      ]

  -- The `while` loop of `for_each_four_ms_packet` from `offset` on: the callback's state, and the
  -- offset reached if the callback never said to stop. The fuel is at least the samples left.
  unfoldable pub four_ms_loop : ℕ → PcmBlock → ℕ → S → S × Option ℕ
  four_ms_loop zero block offset s = (s, some offset)
  four_ms_loop (suc fuel) block offset s =
      if leb (offset + four_ms_packet_samples) (length block.samples)
      then (let (s', go_on) =
            callback s (block.timestamp + offset / 2)
              (take four_ms_packet_samples (drop offset block.samples)) in
          elim go_on [
            | true ↦ four_ms_loop fuel block (offset + four_ms_packet_samples) s'
            | false ↦ (s', none)
          ])
      else (s, some offset)

  -- What follows the loop: the samples that are left wait for the next block.
  unfoldable pub keep_tail : PcmBlock → S × Option ℕ → S × Option PendingTail
  keep_tail block (s, none) = (s, none)
  keep_tail block (s, some offset) = if length block.samples - offset == 0 then (s, none) else (
    s,
    some (record { timestamp = block.timestamp + offset / 2; samples = drop offset block.samples }),
  )

  -- `for_each_four_ms_packet` with the tail taken out of the packetizer; the new tail is returned.
  unfoldable pub four_ms_packets : Option PendingTail → PcmBlock → S → S × Option PendingTail
  four_ms_packets none block s = keep_tail block (four_ms_loop (length block.samples) block 0 s)
  four_ms_packets (some tail) block s =
      if block.timestamp == wrapping_add64 tail.timestamp (four_ms_tail_samples / 2)
      then (let (s', go_on) = callback s tail.timestamp (joined tail block) in
          elim go_on [
            | true ↦ keep_tail block (
                four_ms_loop (length block.samples) block
                  (four_ms_packet_samples - four_ms_tail_samples) s')
            | false ↦ (s', none)
          ])
      else keep_tail block (four_ms_loop (length block.samples) block 0 s)

  unfoldable pub for_each_packet : Packetizer → PcmBlock → S → S × Packetizer
  for_each_packet p block s =
      if p.frame_duration_ms == 4
      then (let (s', tail) = four_ms_packets p.pending_tail block s in
          (s', record p { pending_tail = tail }))
      else (for_each_chunk (length block.samples) block p.samples_per_packet 0 block.samples s, p)

-- `StreamCounters`, which wrap like the atomics of the source.
pub record StreamCounters : Type 0 where
  pub packets_sent : ℕ
  pub packets_dropped : ℕ
  pub blocks_skipped : ℕ

-- What the callback of `send_block` keeps: its variables, the counters, the packets handed to the
-- sender so far, and how often it has looked at the gate.
pub record Sending : Type 0 where
  pub sequence : ℕ
  pub send_error : Option TransportError
  pub counters : StreamCounters
  pub attempted : List AudioPacket
  pub looks : ℕ

-- `sample.to_le_bytes()` for each sample.
abbrev pub le_payload : List ℕ → List ℕ
le_payload [] = []
le_payload (sample ∷ samples) = sample % 256 ∷ sample / 256 % 256 ∷ le_payload samples

abbrev pub count_sent : StreamCounters → StreamCounters
count_sent c = record c { packets_sent = wrapping_add64 c.packets_sent 1 }

abbrev pub count_dropped : StreamCounters → StreamCounters
count_dropped c = record c { packets_dropped = wrapping_add64 c.packets_dropped 1 }

-- The `match` on what the sender returned.
unfoldable pub sent_packet : Sending → Result (Unit {0}) TransportError → Sending × Bool
sent_packet s (ok _) = (record s { counters = count_sent s.counters }, true)
sent_packet s (err (quinn text)) = (record s { counters = count_dropped s.counters }, true)
sent_packet s (err error) = (record s { send_error = some error }, false)

-- `world` says what other threads and the network make of each look at the gate: whether it is
-- open, and the connection that the packet meets.
module _ (m : BytesMut) (world : ℕ → Bool × Connection) where
  unfoldable pub send_packet : Sending → ℕ → List ℕ → Sending × Bool
  send_packet s timestamp samples =
      let (gate_open, connection) = world s.looks in
      let looked : Sending = record s { looks = s.looks + 1 } in
      let packet : AudioPacket = record {
        sequence = s.sequence;
        timestamp = timestamp;
        payload = le_payload samples;
      } in
      let numbered : Sending = record looked {
        sequence = wrapping_add32 s.sequence 1;
        attempted = s.attempted ++ packet ∷ [];
      } in
      if not gate_open then (looked, false) else sent_packet numbered (send m connection packet)

  -- `send_block`: the packetizer, the counters, the packets handed over, and the error that ends
  -- the stream, if any. `gate_open` is what the first look at the gate says.
  unfoldable pub send_block :
      Bool
      → Packetizer
      → PcmBlock
      → StreamCounters
      → Packetizer × StreamCounters × List AudioPacket × Option TransportError
  send_block gate_open p block counters =
      if not gate_open
      then (p, counters, [], none)
      else (let start : Sending = record {
        sequence = p.sequence;
        send_error = none;
        counters = counters;
        attempted = [];
        looks = 0;
      } in
          let (s, p') = for_each_packet send_packet p block start in
          (record p' { sequence = s.sequence }, s.counters, s.attempted, s.send_error))
