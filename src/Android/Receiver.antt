-- ===== src/Android/Receiver.antt =====
-- android/app/src/main/rust/src/receiver.rs: packets from the network go through the jitter buffer
-- into the ring. The ring
-- and the shared state are shared with other threads; here they change by this code alone.
pub mod Adaptive
mod Examples
use soundwave.Base.{
  ℕ, ◌+◌, ◌-◌, ◌*◌, ◌/◌, ◌%◌, ◌^◌, List, [], ◌∷◌, Bool, true, false, not, ◌&&◌, ◌||◌, Option, none,
  some, max, min, length, ltb, leb, ◌==◌, if◌then◌else◌, Result, ok, err, ◌>>=◌,
}
use soundwave.Base.Words.{wrapping_add64}
use soundwave.Protocol.Packet.{AudioPacket}
use soundwave.Protocol.Control.{StreamInfo, SampleFormat, i16_le, sample_rate, channels}
use soundwave.Android.Jitter.{
  JitterBuffer, JitterOutput, audio, silence, push, increase_target, restart,
}
use soundwave.Android.Jitter
use soundwave.Android.Ring.Queue.{ArrayQueue}
use soundwave.Android.Ring.{
  PcmRingBuffer, write_pcm_le, write_silence, set_playback_target, begin_buffering, clear,
  max_jitter_buffer_ms,
}
use soundwave.Android.State.{SharedState, add_received, add_lost, add_late, set_jitter_buffer_ms}

-- `ClientError::UnsupportedStream`, whose text is left out.
pub data ClientError : Type 0 where
  unsupported_stream : ClientError

-- `duration_ms.div_ceil(frame_duration_ms).max(1)`
unfoldable pub packets_for_duration : ℕ → ℕ → Result ℕ ClientError
packets_for_duration duration_ms frame_duration_ms =
    if frame_duration_ms == 0
    then err unsupported_stream
    else ok (max ((duration_ms + (frame_duration_ms - 1)) / frame_duration_ms) 1)

abbrev pub is_supported : StreamInfo → Bool
is_supported stream =
    stream.sample_rate == sample_rate
    && (stream.channels == channels && not (stream.frame_duration_ms == 0))

abbrev pub samples_of_frame : StreamInfo → ℕ
samples_of_frame stream = sample_rate * stream.frame_duration_ms / 1000 * channels

module _ (a : ArrayQueue) where
  pub record ReceiverPipeline : Type 0 where
    pub jitter : JitterBuffer
    pub ring : PcmRingBuffer a
    pub state : SharedState
    pub expected_packet_bytes : ℕ
    pub samples_per_packet : ℕ
    pub frame_duration_ms : ℕ
    pub adjustment_packets : ℕ
    pub maximum_target_packets : ℕ
    pub adaptation_cooldown_packets : ℕ
    pub cooldown_after_adjustment_packets : ℕ
    pub last_underruns : ℕ

  abbrev pub pipeline_of :
      StreamInfo → PcmRingBuffer a → SharedState → ℕ → ℕ → ℕ → ℕ → ReceiverPipeline
  pipeline_of stream ring state target adjustment maximum cooldown = record {
    jitter = Jitter.new target;
    ring = begin_buffering a (set_playback_target a (target * samples_of_frame stream) ring);
    state = set_jitter_buffer_ms (stream.frame_duration_ms * target) state;
    expected_packet_bytes = samples_of_frame stream * 2;
    samples_per_packet = samples_of_frame stream;
    frame_duration_ms = stream.frame_duration_ms;
    adjustment_packets = adjustment;
    maximum_target_packets = maximum;
    adaptation_cooldown_packets = cooldown;
    cooldown_after_adjustment_packets = cooldown;
    last_underruns = ring.underruns;
  }

  -- The one sample format is the supported one. A frame duration of 8 bits does not overflow the
  -- multiplication.
  unfoldable pub new :
      StreamInfo → PcmRingBuffer a → SharedState → Result ReceiverPipeline ClientError
  new stream ring state =
      if not (is_supported stream)
      then err unsupported_stream
      else if not (sample_rate * stream.frame_duration_ms % 1000 == 0)
      then err unsupported_stream
      else packets_for_duration 20 stream.frame_duration_ms >>= λ target.
          packets_for_duration 10 stream.frame_duration_ms >>= λ adjustment.
          packets_for_duration max_jitter_buffer_ms stream.frame_duration_ms >>= λ maximum.
          packets_for_duration 1000 stream.frame_duration_ms >>= λ cooldown.
          ok (pipeline_of stream ring state target adjustment maximum cooldown)

  unfoldable pub resume : ℕ → ReceiverPipeline → ReceiverPipeline
  resume next_sequence p =
      let ring = begin_buffering a (clear a p.ring) in
      record p {
        jitter = restart next_sequence p.jitter;
        ring = ring;
        last_underruns = ring.underruns;
        adaptation_cooldown_packets = p.cooldown_after_adjustment_packets;
      }

  -- The outputs of the jitter buffer go into the ring.
  unfoldable pub play : ℕ → List JitterOutput → PcmRingBuffer a → PcmRingBuffer a
  play samples [] ring = ring
  play samples (audio packet ∷ outputs) ring =
      play samples outputs (write_pcm_le a packet.payload ring)
  play samples (silence ∷ outputs) ring = play samples outputs (write_silence a samples ring)

  -- `adjust_jitter_after_stutter` where the target has been asked to grow.
  abbrev pub adjusted : JitterBuffer × Bool → ReceiverPipeline → ReceiverPipeline
  adjusted (jitter, false) p = p
  adjusted (jitter, true) p = record p {
    jitter = jitter;
    adaptation_cooldown_packets = p.cooldown_after_adjustment_packets;
    ring = set_playback_target a (jitter.target_packets * p.samples_per_packet) p.ring;
    state = set_jitter_buffer_ms (p.frame_duration_ms * jitter.target_packets) p.state;
  }

  unfoldable pub adjust_jitter_after_stutter : Bool → ReceiverPipeline → ReceiverPipeline
  adjust_jitter_after_stutter stutter_detected p =
      if ltb 0 p.adaptation_cooldown_packets
      then record p { adaptation_cooldown_packets = p.adaptation_cooldown_packets - 1 }
      else if stutter_detected && p.jitter.started
      then adjusted (increase_target p.adjustment_packets p.maximum_target_packets p.jitter) p
      else p

  -- `handle_packet` after the jitter buffer has given its outputs. A difference of two counters
  -- stops at 0, as `saturating_sub`.
  abbrev pub after_push :
      ReceiverPipeline
      → Option (JitterBuffer × List JitterOutput)
      → Option (ReceiverPipeline × Bool)
  after_push p none = none
  after_push p (some (jitter, outputs)) =
      let underrun_detected = ltb p.last_underruns p.ring.underruns in
      let late = ltb p.jitter.late_packets jitter.late_packets in
      let lost = jitter.lost_packets - p.jitter.lost_packets in
      let late_now = jitter.late_packets - p.jitter.late_packets in
      let played : ReceiverPipeline = record p {
        jitter = jitter;
        ring = play p.samples_per_packet outputs p.ring;
        last_underruns = p.ring.underruns;
        state = add_late late_now (add_lost lost p.state);
      } in
      some (adjust_jitter_after_stutter (underrun_detected || late) played, true)

  -- `none` stands for a loop of the jitter buffer that does not end.
  unfoldable pub handle_packet : AudioPacket → ReceiverPipeline → Option (ReceiverPipeline × Bool)
  handle_packet packet p =
      let received : ReceiverPipeline = record p { state = add_received p.state } in
      if not (length packet.payload == p.expected_packet_bytes)
      then some (received, false)
      else after_push received (push packet p.jitter)
