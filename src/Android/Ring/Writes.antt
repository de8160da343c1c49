-- ===== src/Android/Ring/Writes.antt =====
-- What the ring holds after a write.
use soundwave.Base.{
  All, ap₂, ◌/◌, ◌%◌, ◌^◌, ℕ, zero, suc, ◌-◌, ◌≤◌, ◌<◌, List, [], ◌∷◌, ◌++◌, true, false, ◌≡◌, refl,
  ap, sym, ◌∙◌, arith, length, drop, replicate, Bool-cases, inl, inr, ltb, ltb→lt, ltb→le, lt→ltb,
  le→ltb, length-append, length-drop, drop-append_le, drop-drop, append_assoc, append-nil,
}
use soundwave.Android.Ring.Queue.{ArrayQueue}
use soundwave.Android.Ring.{
  PcmRingBuffer, push_latest, write_samples, pcm_samples, write_pcm_le, write_silence,
}

-- The newest `cap` samples.
abbrev pub keep_last : ℕ → List ℕ → List ℕ
keep_last cap xs = drop (length xs - cap) xs

drop-none : (n : ℕ) (xs : List ℕ) → n ≡ 0 → drop n xs ≡ xs
drop-none zero xs h = refl
drop-none (suc n) xs h = absurd (omega arith)

drop_eq : (m n : ℕ) (xs : List ℕ) → m ≡ n → drop m xs ≡ drop n xs
drop_eq m n xs h = ap (λ (k : ℕ). drop k xs) h

keep_last_short : (cap : ℕ) (xs : List ℕ) → length xs ≤ cap → keep_last cap xs ≡ xs
keep_last_short cap xs h = drop-none (length xs - cap) xs (omega arith)

keep_last-append :
    (cap : ℕ) (a b : List ℕ) → keep_last cap (keep_last cap a ++ b) ≡ keep_last cap (a ++ b)
keep_last-append cap a b = rw (← drop-append_le (length a - cap) a b (omega arith)) (
    drop-drop (length (drop (length a - cap) (a ++ b)) - cap) (length a - cap)
      (length (a ++ b) - cap) (a ++ b)
      (omega (arith, length-drop (length a - cap) (a ++ b), length-append a b)))

-- The two bytes of each sample, the low one in front.
abbrev pub le_bytes : List ℕ → List ℕ
le_bytes [] = []
le_bytes (sample ∷ samples) = sample % 256 ∷ sample / 256 ∷ le_bytes samples

odd_byte : (odd : List ℕ) → length odd ≤ 1 → pcm_samples odd ≡ []
odd_byte [] h = refl
odd_byte (byte ∷ []) h = refl
odd_byte (byte ∷ next ∷ odd) h = absurd (omega arith)

pcm_samples-le_bytes :
    (samples odd : List ℕ)
    → All (λ sample. sample < 2 ^ 16) samples
    → length odd ≤ 1
    → pcm_samples (le_bytes samples ++ odd) ≡ samples
pcm_samples-le_bytes [] odd words h = odd_byte odd h
pcm_samples-le_bytes (sample ∷ samples) odd words h =
    ap₂ (◌∷◌) (omega arith) (pcm_samples-le_bytes samples odd words.1 h)

module _ (a : ArrayQueue) where
  push_room :
      (q : a.Queue) (x : ℕ)
      → length (a.contents q) < a.capacity q
      → (a.contents (a.push q x).0 ≡ a.contents q ++ x ∷ []) × ((a.push q x).1 ≡ true)
  push_room q x h = (rw (a.contents-push, lt→ltb _ _ h), a.push_taken q x ∙ lt→ltb _ _ h)

  push_full :
      (q : a.Queue) (x : ℕ)
      → a.capacity q ≤ length (a.contents q)
      → (a.contents (a.push q x).0 ≡ a.contents q) × ((a.push q x).1 ≡ false)
  push_full q x h = (rw (a.contents-push, le→ltb _ _ h), a.push_taken q x ∙ le→ltb _ _ h)

  -- A full queue gives up its oldest sample for the new one.
  retry_lem :
      (q : a.Queue) (x : ℕ)
      → a.capacity q ≤ length (a.contents q)
      → a.contents (a.push (a.pop (a.push q x).0).0 x).0 ≡ drop 1 (a.contents q) ++ x ∷ []
  retry_lem q x full =
      (push_room (a.pop (a.push q x).0).0 x (
        rw (a.contents-pop, (push_full q x full).0, a.capacity-pop, a.capacity-push)
          (omega (arith, length-drop 1 (a.contents q), a.bounded q, a.capacity_pos q)))).0
      ∙ rw (a.contents-pop, (push_full q x full).0)

  push_latest_lem :
      (q : a.Queue) (x : ℕ)
      → (a.contents (push_latest a q x) ≡ keep_last (a.capacity q) (a.contents q ++ x ∷ []))
        × (a.capacity (push_latest a q x) ≡ a.capacity q)
  unfolding push_latest
  push_latest_lem q x = elim (Bool-cases (ltb (length (a.contents q)) (a.capacity q))) [
    | inl room ↦
        let (held, taken) = push_room q x (ltb→lt _ _ room) in
        (
          rw (taken, held)
              (sym (
                keep_last_short (a.capacity q) (a.contents q ++ x ∷ [])
                  (omega (arith, length-append (a.contents q) (x ∷ []), ltb→lt _ _ room)))),
          rw (taken, a.capacity-push),
        )
    | inr full ↦
        let le = ltb→le _ _ full in
        (
          rw (push_full q x le).1 (
              retry_lem q x le
              ∙ rw (← drop-append_le 1 (a.contents q) (x ∷ []) (omega (arith, a.capacity_pos q))) (
                  drop_eq 1 (length (a.contents q ++ x ∷ []) - a.capacity q)
                    (a.contents q ++ x ∷ [])
                    (omega (arith, length-append (a.contents q) (x ∷ []), a.bounded q)))),
          rw ((push_full q x le).1, a.capacity-push, a.capacity-pop, a.capacity-push),
        )
  ]

  pub write_samples_lem :
      (q : a.Queue) (xs : List ℕ)
      → (a.contents (write_samples a q xs) ≡ keep_last (a.capacity q) (a.contents q ++ xs))
        × (a.capacity (write_samples a q xs) ≡ a.capacity q)
  unfolding write_samples
  write_samples_lem q [] =
      (rw append-nil (sym (keep_last_short (a.capacity q) (a.contents q) (a.bounded q))), refl)
  write_samples_lem q (x ∷ xs) =
      let (held, cap) = push_latest_lem q x in
      let (later, cap') = write_samples_lem (push_latest a q x) xs in
      (later ∙ rw (cap, held, keep_last-append, append_assoc), cap' ∙ cap)

  pub write_pcm_le_held :
      (pcm : List ℕ) (r : PcmRingBuffer a)
      → let r' = write_pcm_le a pcm r in
        (a.contents r'.queue
          ≡ keep_last (a.capacity r.queue) (a.contents r.queue ++ pcm_samples pcm))
        × (a.capacity r'.queue ≡ a.capacity r.queue)
        × (r' ≡ record r { queue = r'.queue })
  unfolding write_pcm_le
  write_pcm_le_held pcm r =
      let (held, cap) = write_samples_lem r.queue (pcm_samples pcm) in (held, cap, refl)

  -- After `write_pcm_le` of the bytes of some 16-bit samples, the low byte of each in front, and of
  -- at most one byte behind them, the ring holds the newest of the samples that it held and of those
  -- written, as many as its capacity, in order; the oldest are the ones given up. The odd byte is
  -- ignored, and nothing but the queue changes.
  pub write_pcm_le_lem :
      (samples odd : List ℕ) (r : PcmRingBuffer a)
      → All (λ sample. sample < 2 ^ 16) samples
      → length odd ≤ 1
      → let r' = write_pcm_le a (le_bytes samples ++ odd) r in
        (a.contents r'.queue ≡ keep_last (a.capacity r.queue) (a.contents r.queue ++ samples))
        × (a.capacity r'.queue ≡ a.capacity r.queue)
        × (r' ≡ record r { queue = r'.queue })
  unfolding write_pcm_le
  write_pcm_le_lem samples odd r words h =
      rw (pcm_samples-le_bytes samples odd words h)
        (let (held, cap) = write_samples_lem r.queue samples in (held, cap, refl))

  -- After `write_silence` the ring holds the newest samples of what it held followed by that many
  -- zeros, as many as its capacity, in order, and nothing but the queue changes.
  pub write_silence_lem :
      (n : ℕ) (r : PcmRingBuffer a)
      → let r' = write_silence a n r in
        (a.contents r'.queue ≡ keep_last (a.capacity r.queue) (a.contents r.queue ++ replicate n 0))
        × (a.capacity r'.queue ≡ a.capacity r.queue)
        × (r' ≡ record r { queue = r'.queue })
  unfolding write_silence
  write_silence_lem n r =
      let (held, cap) = write_samples_lem r.queue (replicate n 0) in (held, cap, refl)
