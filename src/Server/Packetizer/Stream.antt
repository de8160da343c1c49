-- ===== src/Server/Packetizer/Stream.antt =====
-- A 4 ms stream loses no sample: what the packets of one block after another hold, and what waits.
use soundwave.Base.{
  ℕ, zero, suc, ◌≡◌, refl, ap, sym, subst, ◌∙◌, arith, ◌+◌, ◌*◌, ◌/◌, ◌%◌, ◌^◌, ◌≤◌, ◌<◌, List, [],
  ◌∷◌, ◌++◌, Bool, true, Option, none, some, length, take, drop, leb, ◌==◌, Bool-cases, inl, inr,
  length-take, length-drop, length-append, take-append-drop, drop-drop, append_assoc, append-nil,
  leb→le, eq→==,
}
use soundwave.Server.Packetizer.{
  Packetizer, PcmBlock, PendingTail, four_ms_loop, keep_tail, four_ms_packets, for_each_packet,
  joined,
}

abbrev pub Log : Type 0
Log = List (ℕ × List ℕ)

-- A callback that notes each packet and goes on.
abbrev pub collect : Log → ℕ → List ℕ → Log × Bool
collect log timestamp samples = (log ++ (timestamp, samples) ∷ [], true)

-- The samples of the packets, in order.
abbrev pub payloads : Log → List ℕ
payloads [] = []
payloads ((t, l) ∷ log) = l ++ payloads log

-- Every packet holds 384 samples, and they follow one another 192 frames apart from `t` on.
abbrev pub IsSteady : ℕ → Log → Type 0
IsSteady t [] = Unit
IsSteady t ((u, l) ∷ log) = (u ≡ t) × (length l ≡ 384) × IsSteady (t + 192) log

record Looped (block : PcmBlock) (offset : ℕ) (log : Log) (r : Log × Option ℕ) : Type 0 where
  new : Log
  reached : ℕ
  result : r ≡ (log ++ new, some reached)
  samples : payloads new ++ drop reached block.samples ≡ drop offset block.samples
  steady : IsSteady (block.timestamp + offset / 2) new
  count : reached ≡ offset + 384 * length new
  inside : reached ≤ length block.samples
  done : length block.samples < reached + 384

four_ms_loop-Looped :
    (fuel : ℕ) (block : PcmBlock) (offset : ℕ) (log : Log)
    → offset ≤ length block.samples
    → length block.samples < offset + 384 * (fuel + 1)
    → Looped block offset log (four_ms_loop collect fuel block offset log)
unfolding four_ms_loop
four_ms_loop-Looped zero block offset log le h = record {
  new = [];
  reached = offset;
  result = rw append-nil;
  samples = refl;
  steady = tt;
  count = omega arith;
  inside = le;
  done = omega arith;
}
four_ms_loop-Looped (suc fuel) block offset log le h =
    elim (Bool-cases (leb (offset + 384) (length block.samples))) [
      | inr stop ↦ rw stop (record {
        new = [];
        reached = offset;
        result = rw append-nil;
        samples = refl;
        steady = tt;
        count = omega arith;
        inside = le;
        done = ground arith;
      })
      | inl more ↦
          let room : offset + 384 ≤ length block.samples = leb→le _ _ more in
          let frame : List ℕ = take 384 (drop offset block.samples) in
          let t : ℕ = block.timestamp + offset / 2 in
          let later : block.timestamp + (offset + 384) / 2 ≡ t + 192 = omega arith in
          let ih =
            four_ms_loop-Looped fuel block (offset + 384) (log ++ (t, frame) ∷ []) room
              (omega arith) in
          rw more (record {
            new = (t, frame) ∷ ih.new;
            reached = ih.reached;
            result = ih.result ∙ rw append_assoc;
            samples =
                rw
                  (
                    append_assoc,
                    ih.samples,
                    ← drop-drop 384 offset (offset + 384) block.samples refl,
                  )
                  (take-append-drop 384 (drop offset block.samples));
            steady = (
              refl,
              omega (
                arith,
                length-take 384 (drop offset block.samples),
                length-drop offset block.samples,
              ),
              subst (λ (k : ℕ). IsSteady k ih.new) later ih.steady,
            );
            count = omega (arith, ih.count);
            inside = ih.inside;
            done = ih.done;
          })
    ]

nil_of_length : (l : List ℕ) → length l ≡ 0 → l ≡ []
nil_of_length [] h = refl
nil_of_length (x ∷ l) h = absurd (omega arith)

abbrev pub waiting : Option PendingTail → List ℕ
waiting none = []
waiting (some tail) = tail.samples

-- The position of the stream in front of a block at `t`: where its next packet starts.
abbrev pub next_start : ℕ → Option PendingTail → ℕ
next_start t none = t
next_start t (some tail) = tail.timestamp

-- A tail that the block at `t` continues.
abbrev pub Continues : ℕ → Option PendingTail → Type 0
Continues t none = Unit
Continues t (some tail) = (tail.timestamp + 96 ≡ t) × (length tail.samples ≡ 192)

-- What a block at `t` hands on, after the tail of the blocks before it.
pub record Handed (tail : Option PendingTail) (block : PcmBlock) (r : Log × Option PendingTail)
    : Type 0 where
  pub samples : payloads r.0 ++ waiting r.1 ≡ waiting tail ++ block.samples
  pub steady : IsSteady (next_start block.timestamp tail) r.0
  pub goes_on : Continues (block.timestamp + 480) r.1
  pub advance :
      next_start block.timestamp tail + 192 * length r.0 ≡ next_start (block.timestamp + 480) r.1

kept_tail :
    (block : PcmBlock) (log : Log)
    → length block.samples ≡ 960
    → keep_tail collect block (log, some 768)
      ≡ (log, some (record { timestamp = block.timestamp + 384; samples = drop 768 block.samples }))
unfolding keep_tail
kept_tail block log h = rw h refl

no_tail :
    (block : PcmBlock) (log : Log)
    → length block.samples ≡ 960
    → keep_tail collect block (log, some 960) ≡ (log, none)
unfolding keep_tail
no_tail block log h = rw h refl

four_ms-fresh :
    (block : PcmBlock)
    → length block.samples ≡ 960
    → Handed none block (four_ms_packets collect none block [])
unfolding four_ms_packets
four_ms-fresh block h =
    let l = four_ms_loop-Looped (length block.samples) block 0 [] (omega arith) (omega arith) in
    let at : l.reached ≡ 768 = omega (arith, l.count, l.inside, l.done) in
    let result : four_ms_loop collect (length block.samples) block 0 [] ≡ (l.new, some 768) =
      l.result ∙ ap (λ (k : ℕ). (l.new, some k)) at in
    let start : block.timestamp + 0 / 2 ≡ block.timestamp = omega arith in
    rw (result, kept_tail block l.new h)
      (record {
        samples =
            subst (λ (k : ℕ). payloads l.new ++ drop k block.samples ≡ block.samples) at l.samples;
        steady = subst (λ (k : ℕ). IsSteady k l.new) start l.steady;
        goes_on = (omega arith, omega (arith, length-drop 768 block.samples));
        advance = omega (arith, l.count);
      })

four_ms-joined :
    (tail : PendingTail) (block : PcmBlock)
    → length block.samples ≡ 960
    → block.timestamp < 2 ^ 64
    → Continues block.timestamp (some tail)
    → Handed (some tail) block (four_ms_packets collect (some tail) block [])
unfolding four_ms_packets
four_ms-joined tail block h word c =
    let first : List ℕ = joined tail block in
    let l =
      four_ms_loop-Looped (length block.samples) block 192 ((tail.timestamp, first) ∷ [])
        (omega arith) (omega arith) in
    let at : l.reached ≡ 960 = omega (arith, l.count, l.inside, l.done) in
    let result : four_ms_loop collect (length block.samples) block 192
          ((tail.timestamp, first) ∷ [])
        ≡ ((tail.timestamp, first) ∷ l.new, some 960) =
      l.result ∙ ap (λ (k : ℕ). ((tail.timestamp, first) ∷ l.new, some k)) at in
    let next : (block.timestamp == (tail.timestamp + 96) % 2 ^ 64) ≡ true =
      eq→== block.timestamp ((tail.timestamp + 96) % 2 ^ 64) (omega (arith, c.0)) in
    let start : block.timestamp + 192 / 2 ≡ tail.timestamp + 192 = omega (arith, c.0) in
    let empty : drop 960 block.samples ≡ [] =
      nil_of_length (drop 960 block.samples) (omega (arith, length-drop 960 block.samples)) in
    let rest : payloads l.new ≡ drop 192 block.samples =
      sym (append-nil (payloads l.new))
      ∙ ap (λ (k : List ℕ). payloads l.new ++ k) (sym empty)
      ∙ subst (λ (k : ℕ). payloads l.new ++ drop k block.samples ≡ drop 192 block.samples) at
          l.samples in
    rw (next, result, no_tail block ((tail.timestamp, first) ∷ l.new) h)
      (record {
        samples = rw (append-nil, rest, append_assoc, take-append-drop 192 block.samples);
        steady = (
          refl,
          omega (
            arith,
            length-append tail.samples (take 192 block.samples),
            length-take 192 block.samples,
            c.1,
          ),
          subst (λ (k : ℕ). IsSteady k l.new) start l.steady,
        );
        goes_on = tt;
        advance = omega (arith, l.count, c.0);
      })

four_ms-Handed :
    (tail : Option PendingTail) (block : PcmBlock)
    → length block.samples ≡ 960
    → block.timestamp < 2 ^ 64
    → Continues block.timestamp tail
    → Handed tail block (four_ms_packets collect tail block [])
four_ms-Handed none block h word c = four_ms-fresh block h
four_ms-Handed (some tail) block h word c = four_ms-joined tail block h word c

-- Block after block through the packetizer, with the packets noted.
unfoldable pub feed : Packetizer → List PcmBlock → Log × Packetizer
feed p [] = ([], p)
feed p (block ∷ blocks) =
    let (log, p') = for_each_packet collect p block [] in
    let (rest, p'') = feed p' blocks in (log ++ rest, p'')

-- Whole blocks of a capture without a gap, from `t` on.
abbrev pub IsCapture : ℕ → List PcmBlock → Type 0
IsCapture t [] = Unit
IsCapture t (block ∷ blocks) =
    (block.timestamp ≡ t) × (t < 2 ^ 64) × (length block.samples ≡ 960) × IsCapture (t + 480) blocks

abbrev pub captured : List PcmBlock → List ℕ
captured [] = []
captured (block ∷ blocks) = block.samples ++ captured blocks

payloads-append : (a b : Log) → payloads (a ++ b) ≡ payloads a ++ payloads b
payloads-append [] b = refl
payloads-append ((t, l) ∷ a) b = rw (payloads-append a b, append_assoc)

IsSteady-append :
    (t u : ℕ) (a b : Log)
    → t + 192 * length a ≡ u
    → IsSteady t a
    → IsSteady u b
    → IsSteady t (a ++ b)
IsSteady-append t u [] b e sa sb =
    let same : u ≡ t = omega arith in subst (λ (k : ℕ). IsSteady k b) same sb
IsSteady-append t u ((v, l) ∷ a) b e sa sb =
    (sa.0, sa.1, IsSteady-append (t + 192) u a b (omega arith) sa.2 sb)

four_ms_step :
    (p : Packetizer) (block : PcmBlock)
    → p.frame_duration_ms ≡ 4
    → for_each_packet collect p block [] ≡ (
      (four_ms_packets collect p.pending_tail block []).0,
      record p { pending_tail = (four_ms_packets collect p.pending_tail block []).1 },
    )
unfolding for_each_packet
four_ms_step p block four = rw four refl

-- On a 4 ms stream over whole blocks without a gap no sample is lost, repeated or moved: the packets
-- of all blocks, in order, with what waits in the end, are what waited before and the samples
-- captured. Every packet holds exactly 4 ms, and their timestamps are 192 frames apart. The
-- packetizer is empty or holds a tail that the first block continues, and timestamps stay below
-- 2 ^ 64.
pub feed-captured :
    (p : Packetizer) (t : ℕ) (blocks : List PcmBlock)
    → p.frame_duration_ms ≡ 4
    → Continues t p.pending_tail
    → IsCapture t blocks
    → let (log, p') = feed p blocks in
      (payloads log ++ waiting p'.pending_tail ≡ waiting p.pending_tail ++ captured blocks)
      × IsSteady (next_start t p.pending_tail) log
unfolding feed
feed-captured p t [] four c capture = (rw append-nil, tt)
feed-captured p t (block ∷ blocks) four c capture =
    let tail : Option PendingTail = p.pending_tail in
    let c' : Continues block.timestamp tail = rw (capture.0) c in
    let hd = four_ms-Handed tail block capture.2 (omega (arith, capture.0, capture.1)) c' in
    let r = four_ms_packets collect tail block [] in
    let p' : Packetizer = record p { pending_tail = r.1 } in
    let ih = feed-captured p' (t + 480) blocks four (rw (← capture.0) (hd.goes_on)) capture.3 in
    let more : Log = (feed p' blocks).0 in
    let left : List ℕ = waiting (feed p' blocks).1.pending_tail in
    let steady : IsSteady (next_start t tail) r.0 =
      subst (λ (k : ℕ). IsSteady (next_start k tail) r.0) capture.0 hd.steady in
    let advance : next_start t tail + 192 * length r.0 ≡ next_start (t + 480) r.1 =
      subst (λ (k : ℕ). next_start k tail + 192 * length r.0 ≡ next_start (k + 480) r.1) capture.0
        hd.advance in
    let together : payloads (r.0 ++ more) ++ left
        ≡ waiting tail ++ (block.samples ++ captured blocks) =
      ap (λ (l : List ℕ). l ++ left) (payloads-append r.0 more)
      ∙ append_assoc (payloads r.0) (payloads more) left
      ∙ ap (λ (l : List ℕ). payloads r.0 ++ l) ih.0
      ∙ sym (append_assoc (payloads r.0) (waiting r.1) (captured blocks))
      ∙ ap (λ (l : List ℕ). l ++ captured blocks) hd.samples
      ∙ append_assoc (waiting tail) block.samples (captured blocks) in
    rw (four_ms_step p block four) (
      together,
      IsSteady-append (next_start t tail) (next_start (t + 480) r.1) r.0 more advance steady ih.1,
    )
