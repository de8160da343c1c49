-- ===== src/Android/Ring.antt =====
-- android/app/src/main/rust/src/ring_buffer.rs: the bounded PCM ring between the network task and
-- the audio callback. `ArrayQueue` of the crate `crossbeam_queue` is a parameter with its documented
-- behaviour as laws. A sample is its 16-bit pattern, since samples are only moved. Each call runs
-- by itself: the calls of the two threads are taken one after the other.
pub mod Queue
pub mod Writes
pub mod Reads
pub mod Examples
use soundwave.Base.{
  ℕ, zero, suc, ◌+◌, ◌*◌, ◌%◌, ◌/◌, ◌^◌, List, [], ◌∷◌, Bool, true, false, not, Option, none, some,
  max, min, replicate, ltb, ◌==◌, if◌then◌else◌, is_some,
}
use soundwave.Base.Words.{wrapping_add64}
use soundwave.Android.Ring.Queue.{ArrayQueue}

-- `SAMPLE_RATE * CHANNELS * MAX_JITTER_BUFFER_MS / 1_000`
abbrev pub max_jitter_buffer_ms : ℕ
max_jitter_buffer_ms = 100

abbrev pub pcm_ring_capacity_samples : ℕ
pcm_ring_capacity_samples = 48000 * 2 * max_jitter_buffer_ms / 1000

-- `pcm.chunks_exact(2)` through `i16::from_le_bytes`; an odd last byte is left out.
abbrev pub pcm_samples : List ℕ → List ℕ
pcm_samples [] = []
pcm_samples (low ∷ []) = []
pcm_samples (low ∷ high ∷ pcm) = (low + high * 256) ∷ pcm_samples pcm

module _ (a : ArrayQueue) where
  pub record PcmRingBuffer : Type 0 where
    pub queue : a.Queue
    pub underruns : ℕ
    pub playback_target_samples : ℕ
    pub buffering : Bool

  unfoldable pub new : ℕ → PcmRingBuffer
  new capacity_samples = record {
    queue = a.new capacity_samples;
    underruns = 0;
    playback_target_samples = 0;
    buffering = false;
  }

  -- The queue after `push_latest`: a refused sample is tried again after a `pop`.
  unfoldable pub push_latest : a.Queue → ℕ → a.Queue
  push_latest queue sample =
      let (pushed, accepted) = a.push queue sample in
      if accepted then pushed else (a.push (a.pop pushed).0 sample).0

  unfoldable pub write_samples : a.Queue → List ℕ → a.Queue
  write_samples queue [] = queue
  write_samples queue (sample ∷ samples) = write_samples (push_latest queue sample) samples

  unfoldable pub write_pcm_le : List ℕ → PcmRingBuffer → PcmRingBuffer
  write_pcm_le pcm r = record r { queue = write_samples r.queue (pcm_samples pcm) }

  unfoldable pub write_silence : ℕ → PcmRingBuffer → PcmRingBuffer
  write_silence samples r = record r { queue = write_samples r.queue (replicate samples 0) }

  unfoldable pub set_playback_target : ℕ → PcmRingBuffer → PcmRingBuffer
  set_playback_target samples r = record r {
    playback_target_samples = min samples (a.capacity r.queue);
  }

  abbrev pub begin_buffering : PcmRingBuffer → PcmRingBuffer
  begin_buffering r = record r { buffering = true }

  -- The loop of `read_into` over `n` output samples: the queue, the output, and `actual`.
  unfoldable pub pop_samples : a.Queue → ℕ → a.Queue × List ℕ × ℕ
  pop_samples queue zero = (queue, [], 0)
  pop_samples queue (suc n) =
      let (rest, value) = a.pop queue in
      let (queue', output, actual) = pop_samples rest n in
      elim value [
        | some sample ↦ (queue', sample ∷ output, actual + 1)
        | none ↦ (queue', 0 ∷ output, actual)
      ]

  -- `read_into` once it does not wait for more samples. `n` is the length of the output slice.
  unfoldable pub read_now : ℕ → PcmRingBuffer → PcmRingBuffer × List ℕ × ℕ
  read_now n r =
      let (queue', output, actual) = pop_samples r.queue n in
      let r' : PcmRingBuffer = record r { queue = queue' } in
      if actual == n then (r', output, actual) else (
        record r' {
          underruns = wrapping_add64 r.underruns 1;
          buffering = if ltb 0 r.playback_target_samples then true else r.buffering;
        },
        output,
        actual,
      )

  unfoldable pub read_into : ℕ → PcmRingBuffer → PcmRingBuffer × List ℕ × ℕ
  read_into n r =
      if r.buffering
      then (if ltb (a.len r.queue) (max r.playback_target_samples n)
          then (r, replicate n 0, 0)
          else read_now n (record r { buffering = false }))
      else read_now n r

  -- `while self.queue.pop().is_some() {}` on fuel: a `pop` for each sample, and one that fails.
  unfoldable pub clear_loop : ℕ → a.Queue → a.Queue
  clear_loop zero queue = queue
  clear_loop (suc fuel) queue =
      let (rest, value) = a.pop queue in
      elim value [ some sample ↦ clear_loop fuel rest | none ↦ rest ]

  unfoldable pub clear : PcmRingBuffer → PcmRingBuffer
  clear r = record r { queue = clear_loop (suc (a.len r.queue)) r.queue }

  abbrev pub available_samples : PcmRingBuffer → ℕ
  available_samples r = a.len r.queue
