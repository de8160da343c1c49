-- ===== src/Server/Packetizer/Examples.antt =====
-- The packetizer on the blocks of the source's tests.
use soundwave.Base.{
  Bool, ℕ, ◌≡◌, refl, arith, ◌+◌, ◌-◌, ◌%◌, ◌^◌, List, [], ◌∷◌, ◌++◌, true, Option, none, some,
  replicate, length, ok, err, map,
}
use soundwave.Protocol.Packet.{AudioPacket, to_be_bytes, encode}
use soundwave.Protocol.Packet.ByteList.{byte_list}
use soundwave.Transport.Datagram.{Connection, TransportError, send}
use soundwave.Server.Packetizer.{
  Packetizer, PcmBlock, StreamCounters, choose_packet_duration_ms, for_each_packet, four_ms_packets,
  four_ms_loop, keep_tail, send_block, send_packet, sent_packet,
}
use soundwave.Server.Packetizer.Duration.{IsBest, choose_packet_duration_ms-IsBest}
use soundwave.Server.Packetizer.Stream.{
  collect, Log, feed, payloads, waiting, IsSteady, feed-captured,
}
use soundwave.Server.Packetizer.Sends.{
  IsNumbered, count_from, taken_at, refused_at, EndsWith, send_block-IsNumbered,
}

choose_durations :
    (choose_packet_duration_ms 1920 ≡ ok 10)
    × (choose_packet_duration_ms 960 ≡ ok 5)
    × (choose_packet_duration_ms 384 ≡ ok 2)
    × (choose_packet_duration_ms 100 ≡ err 100)
unfolding choose_packet_duration_ms
choose_durations = (refl, refl, refl, refl)

choose_packet_duration_ms-IsBest_example : IsBest 1000 (choose_packet_duration_ms 1000)
choose_packet_duration_ms-IsBest_example = choose_packet_duration_ms-IsBest 1000

abbrev block : ℕ → PcmBlock
block t = record { timestamp = t; samples = replicate 960 7 }

abbrev four : Packetizer
four = record { sequence = 0; frame_duration_ms = 4; samples_per_packet = 384; pending_tail = none }

shapes : Log → List (ℕ × ℕ)
shapes = map (λ e. (e.0, length e.1))

-- `four_ms_packetizer_carries_contiguous_tail_without_short_packets`
carries_tail :
    shapes (feed four (block 0 ∷ block 480 ∷ [])).0
    ≡ (0, 384) ∷ (192, 384) ∷ (384, 384) ∷ (576, 384) ∷ (768, 384) ∷ []
unfolding shapes feed for_each_packet four_ms_packets four_ms_loop keep_tail
carries_tail = refl

-- `four_ms_packetizer_discards_tail_after_capture_gap`
discards_tail :
    shapes (feed four (block 0 ∷ block 960 ∷ [])).0
    ≡ (0, 384) ∷ (192, 384) ∷ (960, 384) ∷ (1152, 384) ∷ []
unfolding shapes feed for_each_packet four_ms_packets four_ms_loop keep_tail
discards_tail = refl

feed-captured_example :
    let (log, p') = feed four (block 0 ∷ block 480 ∷ []) in
    (payloads log ++ waiting p'.pending_tail ≡ replicate 960 7 ++ (replicate 960 7 ++ []))
    × IsSteady 0 log
feed-captured_example = feed-captured four 0 (block 0 ∷ block 480 ∷ []) refl tt (omega arith)

-- A connection whose queue is full.
abbrev full_queue : Connection
full_queue = record { max_datagram_size = some 1000; send_datagram = λ bytes. err (1 ∷ []) }

abbrev counters : StreamCounters
counters = record { packets_sent = 0; packets_dropped = 0; blocks_skipped = 0 }

abbrev late_four : Packetizer
late_four = record four { sequence = 2 ^ 32 - 1 }

abbrev late_sends : Packetizer × StreamCounters × List AudioPacket × Option TransportError
late_sends = send_block byte_list (λ n. (true, full_queue)) true late_four (block 0) counters

wraps_number :
    (map (λ p. p.sequence) late_sends.2 ≡ (2 ^ 32 - 1) ∷ 0 ∷ [])
    × (late_sends.1.packets_dropped ≡ 2)
unfolding send_block for_each_packet four_ms_packets four_ms_loop keep_tail send_packet sent_packet
    send encode to_be_bytes
wraps_number = (refl, refl)

send_block-IsNumbered_example :
    let world : ℕ → Bool × Connection = λ n. (true, full_queue) in
    let (p', counters', packets, error) = late_sends in
    IsNumbered (2 ^ 32 - 1) packets
    × (p'.sequence ≡ (2 ^ 32 - 1 + length packets) % 2 ^ 32)
    × (counters'.packets_sent % 2 ^ 64
        ≡ (0 + count_from (taken_at byte_list world) 0 packets) % 2 ^ 64)
    × (counters'.packets_dropped % 2 ^ 64
        ≡ (0 + count_from (refused_at byte_list world) 0 packets) % 2 ^ 64)
    × EndsWith byte_list world true (for_each_packet collect late_four (block 0) []).0 packets error
send_block-IsNumbered_example =
    send_block-IsNumbered byte_list (λ n. (true, full_queue)) true late_four (block 0) counters
      (omega arith)
