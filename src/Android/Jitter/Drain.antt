-- ===== src/Android/Jitter/Drain.antt =====
-- The loop of `drain_ready` ends within its fuel.
use soundwave.Base.{
  ℕ, zero, suc, ◌+◌, ◌*◌, ◌≤◌, ◌<◌, List, [], ◌++◌, Option, none, some, ◌≡◌, ap, ◌∙◌, arith, length,
  ltb, if◌then◌else◌, Option-cases, inl, inr,
}
use soundwave.Base.Words.{wrapping_add32}
use soundwave.Base.BTreeMap.{remove}
use soundwave.Base.BTreeMap.Laws.{length-remove}
use soundwave.Protocol.Packet.{AudioPacket}
use soundwave.Android.Jitter.{JitterBuffer, JitterOutput, drain_round, drain_loop, drain_fuel, emit}
use soundwave.Android.Jitter.Serial.{gap, gap-shift, gap_of_contains}
use soundwave.Android.Jitter.Invariant.{
  IsValid, Round, played, skipped, silenced, drain_round-Round, Round-IsValid, Waiting-at,
}

-- The rounds that the gap in front of the nearest packet costs.
pub gap_cost : ℕ → ℕ → ℕ
gap_cost max_packets d = if ltb max_packets d then 1 else d

-- The measure of the loop, which every round lowers.
pub rounds_left : ℕ → JitterBuffer → ℕ
rounds_left e j = length j.packets * (j.max_packets + 3) + gap_cost j.max_packets (gap e j.packets)

pub gap_cost-le : (max_packets d : ℕ) → gap_cost max_packets d ≤ max_packets + 1
unfolding gap_cost
gap_cost-le max_packets d = ground arith

-- A packet that is played pays for any gap behind it.
played_pays :
    (max_packets r m d' d : ℕ)
    → suc r ≡ m
    → r * (max_packets + 3) + gap_cost max_packets d'
      < m * (max_packets + 3) + gap_cost max_packets d
played_pays max_packets r m d' d h =
    omega (arith, gap_cost-le max_packets d', ap (λ (t : ℕ). t * (max_packets + 3)) h)

skip_pays : (max_packets d : ℕ) → max_packets < d → gap_cost max_packets 0 < gap_cost max_packets d
unfolding gap_cost
skip_pays max_packets d h = ground arith

silence_pays :
    (max_packets d' d : ℕ)
    → d' + 1 ≡ d
    → d ≤ max_packets
    → gap_cost max_packets d' < gap_cost max_packets d
unfolding gap_cost
silence_pays max_packets d' d h le = ground arith

pub some_eq : {a b : ℕ} {o : Option ℕ} → o ≡ some a → o ≡ some b → a ≡ b
some_eq p q = cc

Round-rounds_left :
    {e e' : ℕ} {j j' : JitterBuffer} {out : List JitterOutput}
    → j.expected_sequence ≡ some e
    → IsValid j
    → Round e j j' out
    → j'.expected_sequence ≡ some e'
    → rounds_left e' j' < rounds_left e j
unfolding rounds_left
Round-rounds_left {e} {e'} {j} x v (played p g s o) h = rw s (
    played_pays j.max_packets (length (remove e j.packets)) (length j.packets)
      (gap e' (remove e j.packets)) (gap e j.packets) (length-remove e p j.packets g))
Round-rounds_left {e} {e'} {j} x v (skipped n g near far s o) h =
    let same : e' ≡ n = some_eq h (ap (λ (q : JitterBuffer). q.expected_sequence) s) in
    rw s (
      rw (same, gap_of_contains n j.packets near.2 near.0)
        (omega (arith, skip_pays j.max_packets (gap e j.packets) far)))
Round-rounds_left {e} {e'} {j} x v (silenced g close pos s o) h =
    let (word, w) = Waiting-at x v in
    let same : e' ≡ wrapping_add32 e 1 =
      some_eq h (ap (λ (q : JitterBuffer). q.expected_sequence) s) in
    elim (gap-shift e word j.packets g w) [
      | inl less ↦ rw s (
          rw same (
            omega (
              arith,
              silence_pays j.max_packets (gap (wrapping_add32 e 1) j.packets) (gap e j.packets) less
                  close,
            )))
      | inr empty ↦ absurd (omega (arith, ap (length {A = ℕ × AudioPacket}) empty))
    ]

pub Round-expected :
    {e : ℕ} {j j' : JitterBuffer} {out : List JitterOutput}
    → Round e j j' out
    → (e' : ℕ) × (j'.expected_sequence ≡ some e')
Round-expected {e} (played p g s o) = (wrapping_add32 e 1, rw s)
Round-expected (skipped n g near far s o) = (n, rw s)
Round-expected {e} (silenced g close pos s o) = (wrapping_add32 e 1, rw s)

module _ (fuel e : ℕ) (j : JitterBuffer) (x : j.expected_sequence ≡ some e) where
  pub loop_stop : drain_round e j ≡ none → drain_loop (suc fuel) j ≡ some (j, [])
  unfolding drain_loop
  loop_stop stop = ground arith

  pub loop_go :
      (j' : JitterBuffer) (out : List JitterOutput)
      → drain_round e j ≡ some (j', out)
      → drain_loop (suc fuel) j ≡ emit out (drain_loop fuel j')
  unfolding drain_loop
  loop_go j' out go = ground arith

-- With fuel above the measure the loop returns.
pub drain_loop_total :
    (fuel e : ℕ) (j : JitterBuffer)
    → j.expected_sequence ≡ some e
    → IsValid j
    → rounds_left e j < fuel
    → (r : JitterBuffer × List JitterOutput) × (drain_loop fuel j ≡ some r)
unfolding drain_loop
drain_loop_total zero e j x v h = absurd (omega arith)
drain_loop_total (suc fuel) e j x v h = elim (Option-cases (drain_round e j)) [
  | inl stop ↦ ((j, []), loop_stop fuel e j x stop)
  | inr ((j', out), go) ↦
      let round = drain_round-Round e j (Waiting-at x v).0 (Waiting-at x v).1 j' out go in
      let (e', x') = Round-expected round in
      let ((jn, rest), done) =
        drain_loop_total fuel e' j' x' (Round-IsValid x v round)
          (omega (arith, Round-rounds_left x v round x')) in
      ((jn, out ++ rest), loop_go fuel e j x j' out go ∙ rw done)
]

pub rounds_left-lt-drain_fuel : (e : ℕ) (j : JitterBuffer) → rounds_left e j < drain_fuel j
unfolding rounds_left
rounds_left-lt-drain_fuel e j = omega (arith, gap_cost-le j.max_packets (gap e j.packets))
