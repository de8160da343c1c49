-- ===== src/Android/Jitter/Invariant.antt =====
-- The invariant of the jitter buffer, and the three kinds of round that the loop of `drain_ready`
-- makes.
use soundwave.Base.{
  ℕ, ◌^◌, ◌≤◌, ◌<◌, List, [], ◌∷◌, true, Option, none, some, ◌≡◌, ◌∙◌, arith, length, ltb,
  Bool-cases, Option-cases, ==_refl, inl, inr,
}
use soundwave.Base.Words.{wrapping_add32, wrapping_sub32, saturating_add64}
use soundwave.Base.BTreeMap.{BTreeMap, IsAscending, get, remove, contains_key}
use soundwave.Base.BTreeMap.Laws.{get-remove, IsAscending-remove}
use soundwave.Protocol.Packet.{AudioPacket}
use soundwave.Android.Jitter.{
  JitterBuffer, JitterOutput, audio, silence, next_buffered_sequence, fill_gap, drain_round,
}
use soundwave.Android.Jitter.Serial.{
  Waiting, Waiting-remove, Waiting-shift, Waiting-jump, Nearest, next-Nearest, gap,
}

-- Nothing is buffered before the first packet; from then on every buffered packet is waiting.
abbrev pub WaitingFrom : Option ℕ → BTreeMap AudioPacket → Type 0
WaitingFrom none m = m ≡ []
WaitingFrom (some e) m = (e < 2 ^ 32) × Waiting e m

pub record IsValid (j : JitterBuffer) : Type 0 where
  pub ascending : IsAscending j.packets
  pub waiting : WaitingFrom j.expected_sequence j.packets
  pub target_pos : 1 ≤ j.target_packets
  pub target_le : j.target_packets ≤ j.max_packets
  pub lost_word : j.lost_packets < 2 ^ 64

-- What a round that does not stop has done.
pub data Round (e : ℕ) (j j' : JitterBuffer) (out : List JitterOutput) : Type 0 where
  played :
      (p : AudioPacket)
      → get e j.packets ≡ some p
      → j'
        ≡ record j { packets = remove e j.packets; expected_sequence = some (wrapping_add32 e 1) }
      → out ≡ audio p ∷ []
      → Round e j j' out
  skipped :
      (n : ℕ)
      → get e j.packets ≡ none
      → Nearest e j.packets (some n)
      → j.max_packets < gap e j.packets
      → j' ≡ record j {
        lost_packets = saturating_add64 j.lost_packets (gap e j.packets);
        expected_sequence = some n;
      }
      → out ≡ []
      → Round e j j' out
  silenced :
      get e j.packets ≡ none
      → gap e j.packets ≤ j.max_packets
      → 0 < length j.packets
      → j' ≡ record j {
        lost_packets = saturating_add64 j.lost_packets 1;
        expected_sequence = some (wrapping_add32 e 1);
      }
      → out ≡ silence ∷ []
      → Round e j j' out

length_of_contains : (n : ℕ) (m : BTreeMap AudioPacket) → contains_key n m ≡ true → 0 < length m
unfolding get
length_of_contains n [] h = absurd (cc)
length_of_contains n (x ∷ m) h = omega arith

module _ (e : ℕ) (j : JitterBuffer) (word : e < 2 ^ 32) (waiting : Waiting e j.packets) where
  fill_gap-Round :
      (n : ℕ) (j' : JitterBuffer) (out : List JitterOutput)
      → get e j.packets ≡ none
      → Nearest e j.packets (some n)
      → 0 < length j.packets
      → fill_gap e n j ≡ some (j', out)
      → Round e j j' out
  unfolding fill_gap
  fill_gap-Round n j' out g near pos h =
      elim (Bool-cases (ltb j.max_packets (wrapping_sub32 n e))) [
        | inl far ↦ skipped n g near (ground arith) (ground arith) (ground arith)
        | inr close ↦ silenced g (ground arith) pos (ground arith) (ground arith)
      ]

  pub drain_round-Round :
      (j' : JitterBuffer) (out : List JitterOutput)
      → drain_round e j ≡ some (j', out)
      → Round e j j' out
  unfolding drain_round
  drain_round-Round j' out h = elim (Option-cases (get e j.packets)) [
    | inr (p, g) ↦ played p g (ground arith) (ground arith)
    | inl g ↦ elim (Option-cases (next_buffered_sequence e j.packets)) [
      | inl stop ↦ absurd (ground arith)
      | inr (n, found) ↦
          let near : Nearest e j.packets (some n) =
            rw found at (next-Nearest e j.packets word g waiting) in
          fill_gap-Round n j' out g near (length_of_contains n j.packets near.0) (ground arith)
    ]
  ]

  -- The loop stops only with fewer packets than the target.
  pub drain_round_stop :
      1 ≤ j.target_packets
      → j.target_packets ≤ j.max_packets
      → drain_round e j ≡ none
      → length j.packets < j.target_packets
  unfolding drain_round fill_gap
  drain_round_stop pos le h = elim (Option-cases (get e j.packets)) [
    | inr (p, g) ↦ absurd (ground arith)
    | inl g ↦ elim (Option-cases (next_buffered_sequence e j.packets)) [
      | inl stop ↦
          let nothing : j.packets ≡ [] = rw stop at (next-Nearest e j.packets word g waiting) in
          rw nothing pos
      | inr (n, found) ↦ ground arith
    ]
  ]

pub Waiting-at :
    {e : ℕ} {j : JitterBuffer}
    → j.expected_sequence ≡ some e
    → IsValid j
    → (e < 2 ^ 32) × Waiting e j.packets
Waiting-at x v = rw x at (v.waiting)

get-remove_self : (e : ℕ) (m : BTreeMap AudioPacket) → IsAscending m → get e (remove e m) ≡ none
get-remove_self e m a = get-remove e e m a ∙ rw (==_refl e)

-- A round keeps the invariant.
pub Round-IsValid :
    {e : ℕ} {j j' : JitterBuffer} {out : List JitterOutput}
    → j.expected_sequence ≡ some e
    → IsValid j
    → Round e j j' out
    → IsValid j'
Round-IsValid {e} {j} x v (played p g s o) =
    let (word, w) = Waiting-at x v in
    rw s (record {
      ascending = IsAscending-remove e j.packets v.ascending;
      waiting = (
        omega arith,
        Waiting-shift e word (remove e j.packets) (get-remove_self e j.packets v.ascending)
            (Waiting-remove e word e j.packets w),
      );
      target_pos = v.target_pos;
      target_le = v.target_le;
      lost_word = omega (arith, v.lost_word);
    })
Round-IsValid {e} {j} x v (skipped n g near far s o) =
    let (word, w) = Waiting-at x v in
    rw s (record {
      ascending = v.ascending;
      waiting = (near.2, Waiting-jump e n j.packets word near.2 (omega (arith, near.1)) w);
      target_pos = v.target_pos;
      target_le = v.target_le;
      lost_word = omega (arith, v.lost_word);
    })
Round-IsValid {e} {j} x v (silenced g close pos s o) =
    let (word, w) = Waiting-at x v in
    rw s (record {
      ascending = v.ascending;
      waiting = (omega arith, Waiting-shift e word j.packets g w);
      target_pos = v.target_pos;
      target_le = v.target_le;
      lost_word = omega (arith, v.lost_word);
    })
