-- ===== src/Android/Receiver/Examples.antt =====
-- A pipeline on a stream of 5 ms frames, over the ring on a list.
use soundwave.Base.{◌≡◌, ◌⊎◌, refl, arith, [], true, false, replicate, ok, err}
use soundwave.Protocol.Control.{StreamInfo, i16_le}
use soundwave.Protocol.Packet.{AudioPacket}
use soundwave.Android.Ring.Examples.{list_queue, ring_of}
use soundwave.Android.State.{fresh}
use soundwave.Android.Receiver.{
  ReceiverPipeline, pipeline_of, is_supported, new, resume, unsupported_stream,
  packets_for_duration,
}
use soundwave.Android.Receiver.Adaptive.{
  IsSynced, pipeline_of-IsSynced, new-IsSynced, resume-IsSynced,
}

abbrev stream : StreamInfo
stream = record { sample_rate = 48000; channels = 2; sample_format = i16_le; frame_duration_ms = 5 }

abbrev started : ReceiverPipeline list_queue
started = pipeline_of list_queue stream (ring_of []) fresh 4 2 20 200

-- `jitter_target_rounds_to_whole_packets`
rounds :
    (packets_for_duration 20 5 ≡ ok 4)
    × (packets_for_duration 21 5 ≡ ok 5)
    × (packets_for_duration 20 0 ≡ err unsupported_stream)
unfolding packets_for_duration
rounds = (refl, refl, refl)

started_is : new list_queue stream (ring_of []) fresh ≡ ok started
unfolding new packets_for_duration
started_is = refl

started-IsSynced : IsSynced list_queue started
started-IsSynced =
    pipeline_of-IsSynced list_queue stream (ring_of []) fresh 4 2 20 200 (omega arith) (omega arith)
      (omega arith)

abbrev packet : AudioPacket
packet = record { sequence = 0; timestamp = 0; payload = replicate 960 0 }

new-IsSynced_example :
    ((is_supported stream ≡ false)
      × (new list_queue stream (ring_of []) fresh ≡ err unsupported_stream))
    ⊎ ((is_supported stream ≡ true)
        × ((p : ReceiverPipeline list_queue) × (new list_queue stream (ring_of []) fresh ≡ ok p)
            × IsSynced list_queue p))
new-IsSynced_example = new-IsSynced list_queue stream (ring_of []) fresh (omega arith)

resume-IsSynced_example :
    let p' = resume list_queue 7 started in
    IsSynced list_queue p'
    × (list_queue.contents p'.ring.queue ≡ [])
    × (p'.ring.buffering ≡ true)
    × (p'.adaptation_cooldown_packets ≡ 200)
    × (p'.jitter.target_packets ≡ started.jitter.target_packets)
resume-IsSynced_example = resume-IsSynced list_queue 7 started (omega arith) started-IsSynced
