-- ===== src/Server/Packetizer/Lockstep.antt =====
-- windows-server/src/network/server.rs: the loops that call back for each packet, beside the same
-- loops with a callback that only notes the packets.
use soundwave.Base.{
  arith, ℕ, zero, suc, ◌≡◌, ◌+◌, ◌-◌, ◌*◌, ◌/◌, ◌%◌, ◌^◌, List, [], ◌∷◌, ◌++◌, Bool, true, false,
  Option, none, some, ◌⊎◌, length, take, drop, leb, ◌==◌, Bool-cases, inl, inr,
}
use soundwave.Server.Packetizer.{
  Packetizer, PcmBlock, PendingTail, for_each_chunk, four_ms_loop, keep_tail, four_ms_packets,
  for_each_packet, joined,
}
use soundwave.Server.Packetizer.Stream.{Log, collect}

module _ {S : Type 0} (I : S → Log → Type 0) (J : S → Type 0) where
  -- After one call: the two go on together, or the callback has stopped.
  abbrev pub After : S × Bool → Log → Type 0
  After (s, true) log = I s log
  After (s, false) log = J s

  abbrev pub Ends : S → Log → Type 0
  Ends s log = I s log ⊎ J s

  abbrev Reaches : S × Option ℕ → Log × Option ℕ → Type 0
  Reaches (s, none) (log, o) = J s
  Reaches (s, some k) (log, none) = true ≡ false
  Reaches (s, some k) (log, some k') = I s log

  next-Ends :
      (x : S × Bool) (log' : Log) (f : S → S) (end : Log)
      → After x log'
      → ((s : S) → I s log' → Ends (f s) end)
      → Ends (elim x.1 as (λ b. S) [ true ↦ f x.0 | false ↦ x.0 ]) end
  next-Ends (s, true) log' f end h k = k s h
  next-Ends (s, false) log' f end h k = inr h

  next-Reaches :
      (x : S × Bool) (log' : Log) (f : S → S × Option ℕ) (end : Log × Option ℕ)
      → After x log'
      → ((s : S) → I s log' → Reaches (f s) end)
      → Reaches (elim x.1 as (λ b. S × Option ℕ) [ true ↦ f x.0 | false ↦ (x.0, none) ]) end
  next-Reaches (s, true) log' f end h k = k s h
  next-Reaches (s, false) log' f end h k = h

  next_four :
      (x : S × Bool) (log' : Log) (f : S → S × Option PendingTail) (end : Log)
      → After x log'
      → ((s : S) → I s log' → Ends (f s).0 end)
      → Ends
          (elim x.1 as (λ b. S × Option PendingTail) [ true ↦ f x.0 | false ↦ (x.0, none) ]).0
          end
  next_four (s, true) log' f end h k = k s h
  next_four (s, false) log' f end h k = inr h

  module _ (callback : S → ℕ → List ℕ → S × Bool)
      (step : (s : S) (log : Log) (t : ℕ) (l : List ℕ)
        → I s log
        → After (callback s t l) (log ++ (t, l) ∷ [])) where
    chunk-Ends :
        (fuel : ℕ) (block : PcmBlock) (n index : ℕ) (rest : List ℕ) (s : S) (log : Log)
        → I s log
        → Ends
            (for_each_chunk callback fuel block n index rest s)
            (for_each_chunk collect fuel block n index rest log)
    unfolding for_each_chunk
    chunk-Ends zero block n index rest s log i = inl i
    chunk-Ends (suc fuel) block n index [] s log i = inl i
    chunk-Ends (suc fuel) block n index (x ∷ rest) s log i =
        let t : ℕ = block.timestamp + index * n / 2 in
        let l : List ℕ = take n (x ∷ rest) in
        next-Ends (callback s t l) (log ++ (t, l) ∷ [])
          (for_each_chunk callback fuel block n (index + 1) (drop n (x ∷ rest)))
          (for_each_chunk collect fuel block n (index + 1) (drop n (x ∷ rest)) (log ++ (t, l) ∷ []))
          (step s log t l i)
          (λ s' i'.
            chunk-Ends fuel block n (index + 1) (drop n (x ∷ rest)) s' (log ++ (t, l) ∷ []) i')

    loop-Reaches :
        (fuel : ℕ) (block : PcmBlock) (offset : ℕ) (s : S) (log : Log)
        → I s log
        → Reaches
            (four_ms_loop callback fuel block offset s)
            (four_ms_loop collect fuel block offset log)
    unfolding four_ms_loop
    loop-Reaches zero block offset s log i = i
    loop-Reaches (suc fuel) block offset s log i =
        let t : ℕ = block.timestamp + offset / 2 in
        let l : List ℕ = take 384 (drop offset block.samples) in
        elim (Bool-cases (leb (offset + 384) (length block.samples))) [
          | inr stop ↦ rw stop i
          | inl more ↦ rw more (
              next-Reaches (callback s t l) (log ++ (t, l) ∷ [])
                (four_ms_loop callback fuel block (offset + 384))
                (four_ms_loop collect fuel block (offset + 384) (log ++ (t, l) ∷ []))
                (step s log t l i)
                (λ s' i'. loop-Reaches fuel block (offset + 384) s' (log ++ (t, l) ∷ []) i'))
        ]

    tail-Ends :
        (block : PcmBlock) (x : S × Option ℕ) (y : Log × Option ℕ)
        → Reaches x y
        → Ends (keep_tail callback block x).0 (keep_tail collect block y).0
    unfolding keep_tail
    tail-Ends block (s, none) (log, o) h = inr h
    tail-Ends block (s, some k) (log, none) h = absurd (ground arith)
    tail-Ends block (s, some k) (log, some k') h =
        elim (Bool-cases (length block.samples - k == 0)) [
          | inl z ↦ elim (Bool-cases (length block.samples - k' == 0)) [
            | inl z' ↦ rw (z, z') (inl h)
            | inr n' ↦ rw (z, n') (inl h)
          ]
          | inr n ↦ elim (Bool-cases (length block.samples - k' == 0)) [
            | inl z' ↦ rw (n, z') (inl h)
            | inr n' ↦ rw (n, n') (inl h)
          ]
        ]

    four_ms-Ends :
        (tail : Option PendingTail) (block : PcmBlock) (s : S) (log : Log)
        → I s log
        → Ends (four_ms_packets callback tail block s).0 (four_ms_packets collect tail block log).0
    unfolding four_ms_packets
    four_ms-Ends none block s log i =
        tail-Ends block _ _ (loop-Reaches (length block.samples) block 0 s log i)
    four_ms-Ends (some tail) block s log i =
        let t : ℕ = tail.timestamp in
        let l : List ℕ = joined tail block in
        elim (Bool-cases (block.timestamp == (tail.timestamp + 96) % 2 ^ 64)) [
          | inr apart ↦
              rw apart (tail-Ends block _ _ (loop-Reaches (length block.samples) block 0 s log i))
          | inl next ↦ rw next (
              next_four (callback s t l) (log ++ (t, l) ∷ [])
                (λ s'.
                  keep_tail callback block
                    (four_ms_loop callback (length block.samples) block 192 s'))
                (keep_tail collect block
                  (four_ms_loop collect (length block.samples) block 192 (log ++ (t, l) ∷ []))).0
                (step s log t l i)
                (λ s' i'.
                  tail-Ends block _ _
                    (loop-Reaches (length block.samples) block 192 s' (log ++ (t, l) ∷ []) i')))
        ]

    pub for_each-Ends :
        (p : Packetizer) (block : PcmBlock) (s : S) (log : Log)
        → I s log
        → Ends (for_each_packet callback p block s).0 (for_each_packet collect p block log).0
    unfolding for_each_packet
    for_each-Ends p block s log i = elim (Bool-cases (p.frame_duration_ms == 4)) [
      | inl four ↦ rw four (four_ms-Ends p.pending_tail block s log i)
      | inr other ↦
          rw other
            (chunk-Ends (length block.samples) block p.samples_per_packet 0 block.samples s log i)
    ]
