-- ===== src/Android/Receiver/Adaptive.antt =====
-- The jitter buffer, the ring and the counters of a pipeline agree on the target.
use soundwave.Base.{
  ℕ, ◌+◌, ◌-◌, ◌*◌, ◌/◌, ◌%◌, ◌^◌, ◌≡◌, ◌⊎◌, ◌≤◌, ◌<◌, refl, ap, ◌∙◌, arith, [], true, false, max,
  min, ◌==◌, ok, err, Bool-cases, inl, inr,
}
use native.Mathlib.Nat.{le-div_iff_mul-le, div-mul-le_self, div-le_self}
use soundwave.Protocol.Control.{StreamInfo}
use soundwave.Android.Jitter.{restart}
use soundwave.Android.Jitter.Reach.{Reached, created, restarted}
use soundwave.Android.Ring.Queue.{ArrayQueue}
use soundwave.Android.Ring.{PcmRingBuffer, set_playback_target}
use soundwave.Android.Ring.Reads.{clear_lem}
use soundwave.Android.State.{SharedState}
use soundwave.Android.Receiver.{
  ReceiverPipeline, resume, new, pipeline_of, is_supported, packets_for_duration,
  unsupported_stream,
}
use soundwave.Android.Jitter

div_mono : (d x y : ℕ) → 0 < d → x ≤ y → x / d ≤ y / d
div_mono d x y pos le = (le-div_iff_mul-le pos).1 (omega (arith, div-mul-le_self x d))

module _ (a : ArrayQueue) where
  -- The jitter buffer is in a reachable state, its target is at most the greatest one, the ring
  -- waits for as many samples as the target has (or for all it can hold), the displayed delay is
  -- that of the target, and the cooldown is at most a full one.
  pub record IsSynced (p : ReceiverPipeline a) : Type 0 where
    pub reached : Reached p.jitter
    pub target_le : p.jitter.target_packets ≤ p.maximum_target_packets
    pub maximum_pos : 1 ≤ p.maximum_target_packets
    pub maximum_word : p.maximum_target_packets < 2 ^ 64
    pub prefill :
        p.ring.playback_target_samples
        ≡ min (p.jitter.target_packets * p.samples_per_packet) (a.capacity p.ring.queue)
    pub shown : p.state.jitter_buffer_ms ≡ p.frame_duration_ms * p.jitter.target_packets
    pub cooldown_le : p.adaptation_cooldown_packets ≤ p.cooldown_after_adjustment_packets

  -- `resume` with a 32-bit sequence number keeps the parts of a pipeline in agreement, empties the
  -- ring, starts buffering and a full cooldown, and keeps the target.
  pub resume-IsSynced :
      (next : ℕ) (p : ReceiverPipeline a)
      → next < 2 ^ 32
      → IsSynced p
      → let p' = resume a next p in
        IsSynced p'
        × (a.contents p'.ring.queue ≡ [])
        × (p'.ring.buffering ≡ true)
        × (p'.adaptation_cooldown_packets ≡ p.cooldown_after_adjustment_packets)
        × (p'.jitter.target_packets ≡ p.jitter.target_packets)
  unfolding resume restart
  resume-IsSynced next p word s =
      let (gone, cap, same) = clear_lem a p.ring in
      (
        record {
          reached = restarted next word s.reached;
          target_le = s.target_le;
          maximum_pos = s.maximum_pos;
          maximum_word = s.maximum_word;
          prefill = ap (λ r. r.playback_target_samples) same ∙ rw cap s.prefill;
          shown = s.shown;
          cooldown_le = omega arith;
        },
        gone,
        refl,
        refl,
        refl,
      )

  pub pipeline_of-IsSynced :
      (stream : StreamInfo) (ring : PcmRingBuffer a) (state : SharedState)
      (target adjustment maximum cooldown : ℕ)
      → 1 ≤ target
      → target ≤ maximum
      → maximum < 2 ^ 64
      → IsSynced (pipeline_of a stream ring state target adjustment maximum cooldown)
  unfolding set_playback_target Jitter.new
  pipeline_of-IsSynced stream ring state target adjustment maximum cooldown pos le word =
      let same : max target 1 ≡ target = omega arith in
      record {
        reached = created target (omega arith);
        target_le = omega arith;
        maximum_pos = omega arith;
        maximum_word = word;
        prefill = rw same refl;
        shown = rw same refl;
        cooldown_le = omega arith;
      }

  -- For a frame duration of 8 bits, `new` succeeds exactly on a stream of 48000 Hz, two channels and
  -- a frame duration other than 0, and then the parts of the pipeline agree.
  pub new-IsSynced :
      (stream : StreamInfo) (ring : PcmRingBuffer a) (state : SharedState)
      → stream.frame_duration_ms < 2 ^ 8
      → ((is_supported stream ≡ false) × (new a stream ring state ≡ err unsupported_stream))
        ⊎ ((is_supported stream ≡ true)
            × ((p : ReceiverPipeline a) × (new a stream ring state ≡ ok p) × IsSynced p))
  unfolding new packets_for_duration
  new-IsSynced stream ring state byte = elim (Bool-cases (is_supported stream)) [
    | inr bad ↦ inl (bad, rw bad refl)
    | inl good ↦
        let d = stream.frame_duration_ms in
        let nonzero : (d == 0) ≡ false = ground arith in
        let whole : (48000 * d % 1000 == 0) ≡ true = ground arith in
        inr (
          good,
          (
            _,
            rw (good, whole, nonzero) refl,
            pipeline_of-IsSynced stream ring state (max ((20 + (d - 1)) / d) 1)
                (max ((10 + (d - 1)) / d) 1) (max ((100 + (d - 1)) / d) 1)
                (max ((1000 + (d - 1)) / d) 1) (omega arith)
                (omega
                  (arith, div_mono d (20 + (d - 1)) (100 + (d - 1)) (ground arith) (omega arith)))
                (omega (arith, div-le_self (100 + (d - 1)) d)),
          ),
        )
  ]
