-- ===== src/Android/Jitter/Reach.antt =====
-- The states that the operations of the jitter buffer reach, and what holds in all of them.
use soundwave.Base.{
  Perm, [], ◌∷◌, ◌++◌, ℕ, ◌+◌, ◌-◌, ◌%◌, ◌^◌, ◌≤◌, ◌<◌, List, true, false, ◌||◌, some, max, ◌≡◌,
  ◌↔◌, refl, ap, ◌∙◌, arith, length, Bool-cases, inl, inr, if◌then◌else◌, leb,
}
use soundwave.Base.Words.{saturating_add64}
use soundwave.Protocol.Packet.{AudioPacket}
use soundwave.Android.Jitter.{JitterBuffer, JitterOutput, push, new, restart, increase_target}
use soundwave.Android.Jitter.Output.{count_audio, played_packets}
use soundwave.Base.BTreeMap.{values}
use soundwave.Android.Jitter.Order.{Schedule}
use soundwave.Android.Jitter.Push.{IsReady, push-Pushed, pushed, expected_at, is_duplicate, is_late}

new-IsReady : (target : ℕ) → target < 2 ^ 64 → IsReady (new target)
unfolding new
new-IsReady target h = record {
  valid = record {
    ascending = tt;
    waiting = refl;
    target_pos = omega arith;
    target_le = omega arith;
    lost_word = omega arith;
  };
  few = omega arith;
}

restart-IsReady :
    (next : ℕ) (j : JitterBuffer) → next < 2 ^ 32 → IsReady j → IsReady (restart next j)
unfolding restart
restart-IsReady next j h r = record {
  valid = record {
    ascending = tt;
    waiting = (h, tt);
    target_pos = r.valid.target_pos;
    target_le = r.valid.target_le;
    lost_word = r.valid.lost_word;
  };
  few = omega (arith, r.valid.target_pos);
}

increase_target-IsReady :
    (more cap : ℕ) (j : JitterBuffer)
    → cap < 2 ^ 64
    → IsReady j
    → IsReady (increase_target more cap j).0
unfolding increase_target
increase_target-IsReady more cap j h r = elim (Bool-cases (leb (max cap 1) j.target_packets)) [
  | inl full ↦ rw full r
  | inr room ↦ rw room (record {
    valid = record {
      ascending = r.valid.ascending;
      waiting = r.valid.waiting;
      target_pos = ground (arith, r.valid.target_pos);
      target_le = ground arith;
      lost_word = r.valid.lost_word;
    };
    few = ground (arith, r.few);
  })
]

-- The states that calls of the public operations lead to, in any order.
pub data Reached : JitterBuffer → Type 0 where
  created : (target : ℕ) → target < 2 ^ 64 → Reached (new target)
  restarted : (next : ℕ) {j : JitterBuffer} → next < 2 ^ 32 → Reached j → Reached (restart next j)
  increased :
      (more cap : ℕ) {j : JitterBuffer}
      → cap < 2 ^ 64
      → Reached j
      → Reached (increase_target more cap j).0
  received :
      (p : AudioPacket) {j j' : JitterBuffer} (out : List JitterOutput)
      → p.sequence < 2 ^ 32
      → push p j ≡ some (j', out)
      → Reached j
      → Reached j'

-- Every state that the operations lead to keeps the invariant and buffers fewer packets than the
-- target.
pub Reached-IsReady : {j : JitterBuffer} → Reached j → IsReady j
Reached-IsReady (created target h) = new-IsReady target h
Reached-IsReady (restarted next h r) = restart-IsReady next _ h (Reached-IsReady r)
Reached-IsReady (increased more cap h r) = increase_target-IsReady more cap _ h (Reached-IsReady r)
Reached-IsReady (received p out h go r) = (pushed h (Reached-IsReady r) go).ready

-- In every state that the operations lead to, `push` of a packet with a 32-bit sequence number
-- returns, and its fuel is never used up; the state after it is again such a state.
pub push_total :
    (p : AudioPacket) {j : JitterBuffer}
    → p.sequence < 2 ^ 32
    → Reached j
    → (j' : JitterBuffer) × (out : List JitterOutput) × (push p j ≡ some (j', out)) × Reached j'
push_total p {j} word r =
    let ((j', out), done, d) = push-Pushed p j word (Reached-IsReady r) in
    (j', out, done, received p out word done r)

-- In every state that the operations lead to, the buffer holds fewer packets than its target, and
-- the target is at most the window in which a gap is filled with silence.
pub Reached-bounded :
    {j : JitterBuffer}
    → Reached j
    → (length j.packets < j.target_packets) × (j.target_packets ≤ j.max_packets)
Reached-bounded r = let v = Reached-IsReady r in (v.few, v.valid.target_le)

module _ (p : AudioPacket) {j j' : JitterBuffer} (out : List JitterOutput)
    (word : p.sequence < 2 ^ 32) (r : Reached j) (go : push p j ≡ some (j', out)) where
  -- In every state that the operations lead to, a call of `push` with a 32-bit sequence number
  -- neither loses nor repeats nor changes packets: those that it plays and those buffered after it
  -- are, up to their order, those buffered before it and the packet itself, unless that is a copy
  -- of a buffered one or its turn is over. Such a packet is dropped and nothing is output, and one
  -- whose turn is over adds one to the count of late packets.
  pub push_conserves :
      Perm
        (played_packets out ++ values j'.packets)
        ((if is_duplicate p j || is_late p j then [] else p ∷ []) ++ values j.packets)
      × ((if is_duplicate p j || is_late p j then out else []) ≡ [])
      × (j'.late_packets
          ≡ (if is_late p j then saturating_add64 j.late_packets 1 else j.late_packets))
  push_conserves = let d = pushed word (Reached-IsReady r) go in (d.conserved, d.dropped, d.late)

  -- In every state that the operations lead to, with a packet whose sequence number has 32 bits, the
  -- number expected after a call of `push` is the number expected before, moved on by one for
  -- each packet that it outputs and by one for each sequence number that it counts as lost, modulo
  -- 2 ^ 32. The counter of lost packets must not have reached the greatest 64-bit value.
  pub push_accounts :
      j'.lost_packets < 2 ^ 64 - 1
      → j'.expected_sequence
        ≡ some ((expected_at p j + count_audio out + (j'.lost_packets - j.lost_packets)) % 2 ^ 32)
  push_accounts h =
      let d = pushed word (Reached-IsReady r) go in d.expected ∙ ap some (d.accounted h)

  -- In every state that the operations lead to, with a packet whose sequence number has 32 bits, the
  -- packets that a call of `push` outputs stand in the order of their sequence numbers, also
  -- where these wrap around: counted from the number expected before the call each is later than
  -- the one before it, by at least one more than the pieces of silence between them.
  pub push_in_order : Schedule (expected_at p j) 0 out
  push_in_order = (pushed word (Reached-IsReady r) go).schedule

-- `increase_target` never lowers the target and never raises it above the cap (which is at least
-- one), reports exactly whether the target grew, keeps every buffered packet, and goes back to
-- buffering when it grew.
pub increase_target_lem :
    (more cap : ℕ) (j : JitterBuffer)
    → cap < 2 ^ 64
    → let (j', grew) = increase_target more cap j in
      (j.target_packets ≤ j'.target_packets)
      × (j'.target_packets ≤ max j.target_packets (max cap 1))
      × ((grew ≡ true) ↔ (j.target_packets < j'.target_packets))
      × (j'.packets ≡ j.packets)
      × (j'.started ≡ (if grew then false else j.started))
unfolding increase_target
increase_target_lem more cap j h = ground arith
